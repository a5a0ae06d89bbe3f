-- ===== src/Policy/Laws.antt =====
-- object/policy.go: what `Evaluate` decides, against a description of rules and rulings that is not a program.
use casdoor_aiguard.Common.{
  append-nil, not, ◌&&◌, is_nil, true, false, List, [], ◌∷◌, ◌++◌, ◌≡◌, refl, ap, ◌⊎◌, inl, inr,
  ◌↔◌, Any, All, Bool-cases, arith, if◌then◌else◌, ◌∙◌,
}
use casdoor_aiguard.Common.Text.{Str, ◌==◌, contains, codes, eq_iff, contains_iff}
use casdoor_aiguard.Float.{float_lt, float_zero}
use casdoor_aiguard.Intent.{Intent}
use casdoor_aiguard.Policy.{
  Action, action_allow, action_pdp, Rule, Policy, matches, first_match, evaluate,
}

module _ (intent : Intent) (host : Str) where
  -- A rule's four conditions, each of them void where its field is left out.
  pub record Matches (r : Rule) : Type 0 where
    pub category : (r.category ≡ []) ⊎ ((r.category ≡ codes "*") ⊎ (r.category ≡ intent.category))
    pub tool_name : (r.tool_name ≡ []) ⊎ (r.tool_name ≡ intent.tool_name)
    pub amount :
        (float_lt float_zero r.min_amount ≡ false) ⊎ (float_lt intent.amount r.min_amount ≡ false)
    pub destination : (r.destinations ≡ []) ⊎ Any (λ d. d ≡ host) r.destinations

  destination_ok :
      (ds : List Str)
      → (not (is_nil ds) && not (contains ds host)) ≡ false
      → (ds ≡ []) ⊎ Any (λ d. d ≡ host) ds
  destination_ok [] h = inl refl
  destination_ok (d ∷ ds) h = inr ((contains_iff (d ∷ ds) host).0 (ground arith))

  destination_test :
      (ds : List Str)
      → (ds ≡ []) ⊎ Any (λ d. d ≡ host) ds
      → (not (is_nil ds) && not (contains ds host)) ≡ false
  destination_test ds (inl e) = rw e
  destination_test ds (inr a) = rw ((contains_iff ds host).1 a) (ground arith)

  Matches-of_matches : (r : Rule) → matches r intent host ≡ true → Matches r
  unfolding matches
  Matches-of_matches r h = record {
    category = ground (
      arith,
      eq_iff r.category [],
      eq_iff r.category (codes "*"),
      eq_iff r.category intent.category,
    );
    tool_name = ground (arith, eq_iff r.tool_name [], eq_iff r.tool_name intent.tool_name);
    amount = ground arith;
    destination = destination_ok r.destinations (ground arith);
  }

  matches_of_Matches : (r : Rule) → Matches r → matches r intent host ≡ true
  unfolding matches
  matches_of_Matches r m =
      let c = m.category in
      let t = m.tool_name in
      let a = m.amount in
      ground (
        arith,
        eq_iff r.category [],
        eq_iff r.category (codes "*"),
        eq_iff r.category intent.category,
        eq_iff r.tool_name [],
        eq_iff r.tool_name intent.tool_name,
        destination_test r.destinations m.destination,
      )

  -- A rule's guards pass exactly when each of its conditions is void or met.
  pub matches_iff : (r : Rule) → (matches r intent host ≡ true) ↔ Matches r
  matches_iff r = (Matches-of_matches r, matches_of_Matches r)

  abbrev Refuses : Rule → Type 0
  Refuses r = ¬ Matches r

  -- A rule of the list matches, and none before it does.
  pub record IsFirst (rs : List Rule) (r : Rule) : Type 0 where
    pub before : List Rule
    pub after : List Rule
    pub splits : rs ≡ before ++ r ∷ after
    pub skipped : All (λ q. ¬ Matches q) before
    pub met : Matches r

  -- The ways in which a policy rules on an intent for a host.
  pub data Ruling (p : Policy) : Action × Str → Type 0 where
    allowlisted :
        Any (λ d. d ≡ host) p.destination_allowlist
        → Ruling p (action_allow, codes "destination-allowlist")
    ruled :
        ¬ Any (λ d. d ≡ host) p.destination_allowlist
        → (r : Rule) → IsFirst p.rules r
        → Ruling p (r.action, r.id)
    defaulted :
        ¬ Any (λ d. d ≡ host) p.destination_allowlist
        → All (λ q. ¬ Matches q) p.rules
        → Ruling p
            (if p.default_action == [] then action_pdp else p.default_action, codes "default")

  data Scan (rs : List Rule) (otherwise : Action × Str) : Action × Str → Type 0 where
    found : (r : Rule) → IsFirst rs r → Scan rs otherwise (r.action, r.id)
    missed : All (λ q. ¬ Matches q) rs → Scan rs otherwise otherwise

  Scan-cons :
      {rs : List Rule} {otherwise out : Action × Str} (r : Rule)
      → ¬ Matches r
      → Scan rs otherwise out
      → Scan (r ∷ rs) otherwise out
  Scan-cons r n (found q f) = found q (record {
    before = r ∷ f.before;
    after = f.after;
    splits = ap (◌∷◌ r) f.splits;
    skipped = (n, f.skipped);
    met = f.met;
  })
  Scan-cons r n (missed a) = missed (n, a)

  first_match-Scan :
      (rs : List Rule) (otherwise : Action × Str)
      → Scan rs otherwise (first_match rs intent host otherwise)
  unfolding first_match
  first_match-Scan [] otherwise = missed tt
  first_match-Scan (r ∷ rs) otherwise = elim (Bool-cases (matches r intent host)) [
    | inl e ↦ rw e (
        found r (record {
          before = [];
          after = rs;
          splits = refl;
          skipped = tt;
          met = Matches-of_matches r e;
        }))
    | inr e ↦ rw e (Scan-cons r (λ m. cc (matches_of_Matches r m)) (first_match-Scan rs otherwise))
  ]

  ruling_of_Scan :
      (p : Policy) {out : Action × Str}
      → ¬ Any (λ d. d ≡ host) p.destination_allowlist
      → Scan p.rules
          (if p.default_action == [] then action_pdp else p.default_action, codes "default")
          out
      → Ruling p out
  ruling_of_Scan p n (found r f) = ruled n r f
  ruling_of_Scan p n (missed a) = defaulted n a

  pub evaluate-Ruling : (p : Policy) → Ruling p (evaluate p intent host)
  unfolding evaluate
  evaluate-Ruling p = elim (Bool-cases (contains p.destination_allowlist host)) [
    | inl e ↦ rw e (allowlisted ((contains_iff _ host).0 e))
    | inr e ↦ rw e (
        ruling_of_Scan p (λ a. cc ((contains_iff p.destination_allowlist host).1 a))
          (first_match-Scan p.rules _))
  ]

  first_match-skip :
      (before rest : List Rule) (otherwise : Action × Str)
      → All (λ q. ¬ Matches q) before
      → first_match (before ++ rest) intent host otherwise ≡ first_match rest intent host otherwise
  unfolding first_match
  first_match-skip [] rest otherwise a = refl
  first_match-skip (q ∷ before) rest otherwise (n, a) = elim (Bool-cases (matches q intent host)) [
    | inl e ↦ absurd (n (Matches-of_matches q e))
    | inr e ↦ rw e (first_match-skip before rest otherwise a)
  ]

  first_match-IsFirst :
      (rs : List Rule) (r : Rule) (otherwise : Action × Str)
      → IsFirst rs r
      → first_match rs intent host otherwise ≡ (r.action, r.id)
  first_match-IsFirst rs r otherwise f = rw f.splits (
      first_match-skip f.before (r ∷ f.after) otherwise f.skipped
      ∙ unfold first_match in rw (matches_of_Matches r f.met))

  first_match-none :
      (rs : List Rule) (otherwise : Action × Str)
      → All (λ q. ¬ Matches q) rs
      → first_match rs intent host otherwise ≡ otherwise
  first_match-none rs otherwise a =
      rw (← append-nil rs) (first_match-skip rs [] otherwise a ∙ unfold first_match in refl)

  evaluate_of_Ruling :
      (p : Policy) (out : Action × Str) → Ruling p out → evaluate p intent host ≡ out
  unfolding evaluate
  evaluate_of_Ruling p out (allowlisted a) = rw ((contains_iff _ host).1 a)
  evaluate_of_Ruling p out (ruled n r f) =
      elim (Bool-cases (contains p.destination_allowlist host)) [
        | inl e ↦ absurd (n ((contains_iff _ host).0 e))
        | inr e ↦ rw e (first_match-IsFirst p.rules r _ f)
      ]
  evaluate_of_Ruling p out (defaulted n a) =
      elim (Bool-cases (contains p.destination_allowlist host)) [
        | inl e ↦ absurd (n ((contains_iff _ host).0 e))
        | inr e ↦ rw e (first_match-none p.rules _ a)
      ]

-- `Evaluate` returns an action and a reason exactly when they are the policy's ruling: "allow" for
-- a host of the allowlist; else the action and id of the first rule whose conditions all hold;
-- else the default action, which is "pdp" where the policy names none.
pub evaluate-eq_iff :
    (intent : Intent) (host : Str) (p : Policy) (out : Action × Str)
    → (evaluate p intent host ≡ out) ↔ Ruling intent host p out
evaluate-eq_iff intent host p out =
    (λ e. rw e at (evaluate-Ruling intent host p), evaluate_of_Ruling intent host p out)
