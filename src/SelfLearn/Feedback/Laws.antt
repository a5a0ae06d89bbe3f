-- ===== src/SelfLearn/Feedback/Laws.antt =====
-- object/selflearn.go: the rules that are read back as they are, and what an upsert makes of them.
use casdoor_aiguard.Common.Sort.{
  IsSorted, IsWeakOrder, sort_by, sort_by-IsSorted, sort_by-perm, str_lt-IsWeakOrder,
}
use casdoor_aiguard.Common.Text.{Str, ◌==◌, codes, eq_iff, trim_space}
use casdoor_aiguard.Common.{
  true, not, ◌&&◌, Option, none, some, List, [], ◌∷◌, ◌≡◌, ◌≢◌, refl, arith, All, map, Bool-cases,
  Option-cases, inl, inr, ap, subst, ◌++◌,
}
use mathlib.Core.List.{Perm}
use mathlib.Core.Path.{ap₂}
use casdoor_aiguard.Record.{Record, feedback_deny, feedback_none}
use casdoor_aiguard.SelfLearn.{
  LearnedRule, is_newer, is_complete, with_effect, complete_rules, learned_rule_from_record,
  parse_learned_rules, upsert_learned_rule,
}

-- A rule that reading it back keeps as it is.
pub record IsKept (r : LearnedRule) : Type 0 where
  pub complete : is_complete r ≡ true
  pub effect : with_effect r ≡ r

with_effect-IsKept : (r : LearnedRule) → is_complete r ≡ true → IsKept (with_effect r)
unfolding with_effect is_complete
with_effect-IsKept r h = elim (Bool-cases (r.effect == codes "deny")) [
  | inl e ↦ rw e (record { complete = h; effect = rw e })
  | inr e ↦ rw e (record { complete = h; effect = unfold ◌==◌ in refl })
]

complete_rules-All : (rs : List (Option LearnedRule)) → All IsKept (complete_rules rs)
unfolding complete_rules
complete_rules-All [] = tt
complete_rules-All (none ∷ rs) = complete_rules-All rs
complete_rules-All (some r ∷ rs) = elim (Bool-cases (is_complete r)) [
  | inl e ↦ rw e (with_effect-IsKept r e, complete_rules-All rs)
  | inr e ↦ rw e (complete_rules-All rs)
]

pub complete_rules-map :
    (rs : List LearnedRule) → All IsKept rs → complete_rules (map (λ r. some r) rs) ≡ rs
unfolding complete_rules
complete_rules-map [] h = refl
complete_rules-map (r ∷ rs) (k, h) = rw (k.complete) (ap₂ (◌∷◌) k.effect (complete_rules-map rs h))

pub parse-All :
    (unmarshal : Str → Option (List (Option LearnedRule))) (v : Str)
    → All IsKept (parse_learned_rules unmarshal v)
unfolding parse_learned_rules
parse-All unmarshal v = elim (Bool-cases (trim_space v == [])) [
  | inl e ↦ rw e tt
  | inr e ↦ elim (Option-cases (unmarshal v)) [
    | inl n ↦ rw (e, n, parse_learned_rules) tt
    | inr (rs, n) ↦ rw (e, n, parse_learned_rules) (complete_rules-All rs)
  ]
]

-- The rule on a record's operation with an effect.
abbrev pub rule_from : Str → Str → Record → Str → LearnedRule
rule_from now user r effect = record {
  id = r.id;
  subject = user;
  obj = r.resource;
  act = r.intent;
  effect = effect;
  agent = r.agent;
  policy_set = r.policy_set;
  was_allowed = r.is_allowed;
  reason = r.reason;
  created_time = now;
}

-- What a rule must be to be kept, if there is one.
abbrev pub IsKeptIfAny : Option LearnedRule → Type 0
IsKeptIfAny none = Unit
IsKeptIfAny (some r) = IsKept r

pub upsert-All :
    (rs : List LearnedRule) (id : Str) (rule : Option LearnedRule)
    → All IsKept rs
    → IsKeptIfAny rule
    → All IsKept (upsert_learned_rule rs id rule)
unfolding upsert_learned_rule
upsert-All [] id none h k = tt
upsert-All [] id (some r) h k = (k, tt)
upsert-All (r ∷ rs) id rule (q, h) k = elim (Bool-cases (r.id == id)) [
  | inl e ↦ rw e (upsert-All rs id rule h k)
  | inr e ↦ rw e (q, upsert-All rs id rule h k)
]

pub learned_rule-IsKept :
    (now user : Str) (r : Record) → user ≢ [] → IsKeptIfAny (learned_rule_from_record now r user)
unfolding learned_rule_from_record is_complete with_effect
learned_rule-IsKept now user r n =
    elim (Bool-cases (not (r.resource == []) && not (r.intent == []))) [
      | inr c ↦ rw c tt
      | inl c ↦ elim (Bool-cases (r.feedback == feedback_deny)) [
        | inl d ↦
            rw (c, d, learned_rule_from_record)
              (record { complete = ground (arith, eq_iff user []); effect = unfold ◌==◌ in refl })
        | inr d ↦
            rw (c, d, learned_rule_from_record)
              (record { complete = ground (arith, eq_iff user []); effect = unfold ◌==◌ in refl })
      ]
    ]

-- A list of rules without those of a record, the others in their order.
pub data IsWithout (id : Str) : List LearnedRule → List LearnedRule → Type 0 where
  over : IsWithout id [] []
  stays :
      {r : LearnedRule} {rs rest : List LearnedRule}
      → r.id ≢ id
      → IsWithout id rs rest
      → IsWithout id (r ∷ rs) (r ∷ rest)
  goes :
      {r : LearnedRule} {rs rest : List LearnedRule}
      → r.id ≡ id
      → IsWithout id rs rest
      → IsWithout id (r ∷ rs) rest

abbrev pub rule_list : Option LearnedRule → List LearnedRule
rule_list none = []
rule_list (some r) = r ∷ []

-- The rules that are stored in place of the old ones: these without those of the record, with its new
-- rule if it has one, so that none is newer than one before it.
pub record Replaces (old : List LearnedRule) (id : Str) (rule : Option LearnedRule)
    (stored : List LearnedRule) : Type 0 where
  pub rest : List LearnedRule
  pub without : IsWithout id old rest
  pub same_rules : Perm stored (rest ++ rule_list rule)
  pub newest_first : IsSorted is_newer stored

upsert-IsWithout :
    (rs : List LearnedRule) (id : Str) (rule : Option LearnedRule)
    → (rest : List LearnedRule) × IsWithout id rs rest
      × (upsert_learned_rule rs id rule ≡ rest ++ rule_list rule)
unfolding upsert_learned_rule
upsert-IsWithout [] id none = ([], over, refl)
upsert-IsWithout [] id (some r) = ([], over, refl)
upsert-IsWithout (r ∷ rs) id rule =
    let (rest, without, same) = upsert-IsWithout rs id rule in
    elim (Bool-cases (r.id == id)) [
      | inl e ↦ (rest, goes ((eq_iff r.id id).0 e) without, rw e same)
      | inr e ↦
          (r ∷ rest, stays (λ q. ground (arith, eq_iff r.id id)) without, rw e (ap (◌∷◌ r) same))
    ]

is_newer-IsWeakOrder : IsWeakOrder is_newer
unfolding is_newer
is_newer-IsWeakOrder = record {
  asymm = λ x y h. str_lt-IsWeakOrder.asymm y.created_time x.created_time h;
  trans = λ x y z h k. str_lt-IsWeakOrder.trans z.created_time y.created_time x.created_time k h;
}

pub upsert-Replaces :
    (old : List LearnedRule) (id : Str) (rule : Option LearnedRule)
    → Replaces old id rule (sort_by is_newer (upsert_learned_rule old id rule))
upsert-Replaces old id rule =
    let (rest, without, same) = upsert-IsWithout old id rule in
    record {
      rest = rest;
      without = without;
      same_rules =
          subst (λ l. Perm (sort_by is_newer (upsert_learned_rule old id rule)) l) same
            (sort_by-perm is_newer (upsert_learned_rule old id rule));
      newest_first =
          sort_by-IsSorted is_newer is_newer-IsWeakOrder (upsert_learned_rule old id rule);
    }

-- What a corrected record teaches: nothing if the correction was withdrawn, else a rule on its
-- operation with the effect that the correction asks for.
pub data Teaches (now user : Str) (r : Record) : Option LearnedRule → Type 0 where
  withdrawn : r.feedback ≡ feedback_none → Teaches now user r none
  denying :
      r.feedback ≡ feedback_deny
      → r.resource ≢ []
      → r.intent ≢ []
      → Teaches now user r (some (rule_from now user r (codes "deny")))
  allowing :
      r.feedback ≢ feedback_none
      → r.feedback ≢ feedback_deny
      → r.resource ≢ []
      → r.intent ≢ []
      → Teaches now user r (some (rule_from now user r (codes "allow")))
