-- ===== src/Enforce/Verdict.antt =====
-- object/enforce.go: what `EnforceForAgent` decides, against the enabled sets as they stand in their files.
use casdoor_aiguard.Common.Dict.{Dict, keys}
use casdoor_aiguard.Common.Sort.{
  IsSorted, sort_by-IsSorted, sort_by-perm, sort_strings, str_lt, str_lt-IsWeakOrder,
}
use casdoor_aiguard.Common.Text.{Str, ◌==◌, equal_fold, eq_iff}
use casdoor_aiguard.Common.{
  Bool, true, false, ◌||◌, Option, none, some, List, [], ◌∷◌, ◌++◌, ◌≡◌, ◌≢◌, refl, arith,
  Bool-cases, Option-cases, inl, inr, ◌⊎◌, All, ap, ◌∙◌, sym, subst,
}
use casdoor_aiguard.Enforce.Cache.{IsCoherent, compile_fresh, enforcer_for_lem}
use casdoor_aiguard.Enforce.State.{
  EnforceState, deny_of, judge, judge_compiled, enforce_names, enforce_for_agent,
  enabled_policy_set_names,
}
use casdoor_aiguard.Enforce.{Casbin, Decision, allow_through, CompiledSet, subject_of}
use casdoor_aiguard.PolicyHub.{PolicySet, HubFile, GetResult, got, get_failed, get_policy_set}
use mathlib.Core.List.{Perm}

module _ (cb : Casbin) (hub : Str → HubFile) (agent_id obj act : Str) where
  -- The set of this name is readable, compiles, is written for the agent, and denies the triple of
  -- its subject, the object and the action by this rule.
  pub record Denies (name : Str) (rule : List Str) : Type 0 where
    pub set : PolicySet
    pub enforcer : cb.Enforcer
    pub read : get_policy_set hub name ≡ got (some set)
    pub compiled : cb.compile set.model set.policy ≡ some enforcer
    pub scoped : subject_of set.policy ≢ []
    pub same_agent : equal_fold (subject_of set.policy) agent_id ≡ true
    pub ruled : cb.enforce_ex enforcer (subject_of set.policy) obj act ≡ some (false, rule)

  abbrev pub Passes : Str → Type 0
  Passes name = (rule : List Str) → ¬ Denies name rule

  abbrev denial : Str → List Str → Decision
  denial name rule = record { allowed = false; policy_set = name; rule = rule }

  -- The decision on a list of sets: the first that denies, or an allow.
  pub data Verdict (names : List Str) (d : Decision) : Type 0 where
    denied :
        (before : List Str) (name : Str) (after : List Str) (rule : List Str)
        → names ≡ before ++ name ∷ after
        → All Passes before
        → Denies name rule
        → d ≡ record { allowed = false; policy_set = name; rule = rule }
        → Verdict names d
    passed : All Passes names → d ≡ allow_through → Verdict names d

  -- What one set's judgement says.
  abbrev Judged : Str → Option Decision → Type 0
  Judged name none = Passes name
  Judged name (some d) = (rule : List Str) × Denies name rule × (d ≡ denial name rule)

  -- What a deny says of the set that the name was read as.
  record DeniesIn (set : PolicySet) (rule : List Str) : Type 0 where
    enforcer : cb.Enforcer
    compiled : cb.compile set.model set.policy ≡ some enforcer
    scoped : subject_of set.policy ≢ []
    same_agent : equal_fold (subject_of set.policy) agent_id ≡ true
    ruled : cb.enforce_ex enforcer (subject_of set.policy) obj act ≡ some (false, rule)

  got-injective : (s t : PolicySet) → got (some s) ≡ got (some t) → s ≡ t
  got-injective s t e = cc

  DeniesIn-of_Denies :
      (name : Str) (set : PolicySet) (rule : List Str)
      → get_policy_set hub name ≡ got (some set)
      → Denies name rule
      → DeniesIn set rule
  DeniesIn-of_Denies name set rule r d =
      subst (λ s. DeniesIn s rule) (got-injective d.set set (sym d.read ∙ r))
        (record {
          enforcer = d.enforcer;
          compiled = d.compiled;
          scoped = d.scoped;
          same_agent = d.same_agent;
          ruled = d.ruled;
        })

  Denies-of_DeniesIn :
      (name : Str) (set : PolicySet) (rule : List Str)
      → get_policy_set hub name ≡ got (some set)
      → DeniesIn set rule
      → Denies name rule
  Denies-of_DeniesIn name set rule r d = record {
    set = set;
    enforcer = d.enforcer;
    read = r;
    compiled = d.compiled;
    scoped = d.scoped;
    same_agent = d.same_agent;
    ruled = d.ruled;
  }

  -- The same of a set that is at hand.
  abbrev JudgedIn : Str → PolicySet → Option Decision → Type 0
  JudgedIn name set none = (rule : List Str) → ¬ DeniesIn set rule
  JudgedIn name set (some d) = (rule : List Str) × DeniesIn set rule × (d ≡ denial name rule)

  deny_of-JudgedIn :
      (name : Str) (set : PolicySet) (e : cb.Enforcer) (answer : Option (Bool × List Str))
      → cb.compile set.model set.policy ≡ some e
      → subject_of set.policy ≢ []
      → equal_fold (subject_of set.policy) agent_id ≡ true
      → cb.enforce_ex e (subject_of set.policy) obj act ≡ answer
      → JudgedIn name set (deny_of cb name answer)
  unfolding deny_of
  deny_of-JudgedIn name set e none c n q a = λ rule d. cc (c, d.compiled, a, d.ruled)
  deny_of-JudgedIn name set e (some (true, rule)) c n q a =
      λ rule' d. cc (c, d.compiled, a, d.ruled)
  deny_of-JudgedIn name set e (some (false, rule)) c n q a =
      (rule, record { enforcer = e; compiled = c; scoped = n; same_agent = q; ruled = a }, refl)

  judge_fresh-JudgedIn :
      (name : Str) (set : PolicySet)
      → JudgedIn name set (judge_compiled cb name agent_id obj act (compile_fresh cb set))
  unfolding judge_compiled compile_fresh
  judge_fresh-JudgedIn name set = elim (Option-cases (cb.compile set.model set.policy)) [
    | inl e ↦ rw (e, compile_fresh) (λ rule d. cc (e, d.compiled))
    | inr (en, e) ↦ elim (Bool-cases (subject_of set.policy == [])) [
      | inl z ↦ rw (e, compile_fresh, z, judge_compiled) (λ rule d. d.scoped ((eq_iff _ _).0 z))
      | inr z ↦ elim (Bool-cases (equal_fold (subject_of set.policy) agent_id)) [
        | inl q ↦
            rw (e, compile_fresh, z, q, judge_compiled)
              (deny_of-JudgedIn name set en (cb.enforce_ex en (subject_of set.policy) obj act) e
                (λ p. ground (arith, eq_iff (subject_of set.policy) [])) q refl)
        | inr q ↦ rw (e, compile_fresh, z, q, judge_compiled) (λ rule d. cc (q, d.same_agent))
      ]
    ]
  ]

  Judged-of_JudgedIn :
      (name : Str) (set : PolicySet) (o : Option Decision)
      → get_policy_set hub name ≡ got (some set)
      → JudgedIn name set o
      → Judged name o
  Judged-of_JudgedIn name set none r h = λ rule d. h rule (DeniesIn-of_Denies name set rule r d)
  Judged-of_JudgedIn name set (some d) r (rule, h, e) =
      (rule, Denies-of_DeniesIn name set rule r h, e)

  judge-Judged :
      (name : Str) (g : GetResult) (cache : Dict (CompiledSet cb))
      → get_policy_set hub name ≡ g
      → IsCoherent cb cache
      → Judged name (judge cb name agent_id obj act g cache).0
        × IsCoherent cb (judge cb name agent_id obj act g cache).1
  unfolding judge
  judge-Judged name (get_failed e) cache r h = (λ rule d. cc (r, d.read), h)
  judge-Judged name (got none) cache r h = (λ rule d. cc (r, d.read), h)
  judge-Judged name (got (some set)) cache r h =
      let (same, kept) = enforcer_for_lem cb set cache h in
      (rw same (Judged-of_JudgedIn name set _ r (judge_fresh-JudgedIn name set)), kept)

  Verdict-cons :
      (name : Str) (names : List Str) (d : Decision)
      → Passes name
      → Verdict names d
      → Verdict (name ∷ names) d
  Verdict-cons name names d p (denied before n after rule e skipped x q) =
      denied (name ∷ before) n after rule (ap (◌∷◌ name) e) (p, skipped) x q
  Verdict-cons name names d p (passed all q) = passed (p, all) q

  -- One round of the loop, by what its judgement was, with the rest of the loop behind it.
  loop-Verdict :
      (name : Str) (names : List Str) (o : Option Decision) (cache : Dict (CompiledSet cb))
      (rest : Decision × Dict (CompiledSet cb))
      → Judged name o
      → IsCoherent cb cache
      → Verdict names rest.0 × IsCoherent cb rest.1
      → let out : Decision × Dict (CompiledSet cb) = elim o [
        | some deny ↦ (deny, cache)
        | none ↦ rest
      ] in
        Verdict (name ∷ names) out.0 × IsCoherent cb out.1
  loop-Verdict name names none cache rest p h (v, k) = (Verdict-cons name names rest.0 p v, k)
  loop-Verdict name names (some d) cache rest (rule, x, q) h (v, k) =
      (denied [] name names rule refl tt x q, h)

  enforce_names-Verdict :
      (names : List Str) (cache : Dict (CompiledSet cb))
      → IsCoherent cb cache
      → Verdict names (enforce_names cb hub agent_id obj act names cache).0
        × IsCoherent cb (enforce_names cb hub agent_id obj act names cache).1
  unfolding enforce_names
  enforce_names-Verdict [] cache h = (passed tt refl, h)
  enforce_names-Verdict (name ∷ names) cache h =
      let j = judge cb name agent_id obj act (get_policy_set hub name) cache in
      let (judged, kept) = judge-Judged name (get_policy_set hub name) cache refl h in
      loop-Verdict name names j.0 j.1 (enforce_names cb hub agent_id obj act names j.1) judged kept
        (enforce_names-Verdict names j.1 kept)

  -- What is decided, with these sets enabled.
  pub data Decides (enabled : Dict Bool) (d : Decision) : Type 0 where
    unguarded : (obj ≡ []) ⊎ (act ≡ []) → d ≡ allow_through → Decides enabled d
    ruled :
        (names : List Str)
        → obj ≢ []
        → act ≢ []
        → Perm names (keys enabled)
        → IsSorted str_lt names
        → Verdict names d
        → Decides enabled d

  -- From a coherent cache, an operation with an empty object or an empty action is allowed; the
  -- decision on any other is the deny of the first enabled set, in the byte order of the names,
  -- that is readable, compiles, names the agent as its subject and denies the triple, and allow if
  -- no enabled set does so. The cache stays coherent.
  pub enforce_for_agent-Verdict :
      (st : EnforceState cb)
      → IsCoherent cb st.cache
      → Decides st.enabled (enforce_for_agent cb hub agent_id obj act st).0
        × IsCoherent cb (enforce_for_agent cb hub agent_id obj act st).1.cache
  unfolding enforce_for_agent enabled_policy_set_names sort_strings
  enforce_for_agent-Verdict st h = elim (Bool-cases (obj == [] || act == [])) [
    | inl e ↦ rw e (unguarded (ground (arith, eq_iff obj [], eq_iff act [])) refl, h)
    | inr e ↦
        let names = enabled_policy_set_names cb st.enabled in
        let (verdict, kept) = enforce_names-Verdict names st.cache h in
        rw e (
          ruled names (λ q. ground (arith, eq_iff obj [])) (λ q. ground (arith, eq_iff act []))
              (sort_by-perm str_lt (keys st.enabled))
              (sort_by-IsSorted str_lt str_lt-IsWeakOrder (keys st.enabled)) verdict,
          kept,
        )
  ]
