-- ===== src/SelfLearn.antt =====
-- object/selflearn.go: the rules that corrections of records teach, and how they are stored.
-- Reading and writing JSON, and the clock, are parameters.
pub mod Literals
pub mod Feedback
use casdoor_aiguard.Common.Sort.{sort_by, str_lt}
use casdoor_aiguard.Common.Text.{Str, ◌==◌, codes, join, trim_space}
use casdoor_aiguard.Common.{
  ℕ, Bool, true, false, not, ◌&&◌, ◌||◌, Option, none, some, List, [], ◌∷◌, ◌++◌, any, eqb,
  if◌then◌else◌, is_nil,
}
use casdoor_aiguard.Record.{Record, is_correctable, feedback_deny}

-- `LearnedRule`
pub record LearnedRule : Type 0 where
  pub id : Str
  pub subject : Str
  pub obj : Str
  pub act : Str
  pub effect : Str
  pub agent : Str
  pub policy_set : Str
  pub was_allowed : Bool
  pub reason : Str
  pub created_time : Str

-- `regexp.QuoteMeta`: a backslash before each of the bytes that a pattern gives a meaning.
unfoldable pub is_special : ℕ → Bool
unfolding any
is_special c = any (λ m. eqb m c) (codes "\\.+*?()|[]{}^$")

unfoldable pub quote_meta : Str → Str
unfolding is_special
quote_meta [] = []
quote_meta (c ∷ s) = let rest = quote_meta s in if is_special c then b'\\' ∷ c ∷ rest else c ∷ rest

-- `regexLiteral`
unfoldable pub regex_literal : Str → Str
unfolding quote_meta
regex_literal value = codes "^" ++ (quote_meta value ++ codes "$")

-- `ToPolicyLine`
unfoldable pub to_policy_line : LearnedRule → Str
unfolding regex_literal
to_policy_line r =
    codes "p, "
    ++ (r.subject
        ++ (codes ", "
            ++ (regex_literal r.obj
                ++ (codes ", " ++ (regex_literal r.act ++ (codes ", " ++ r.effect))))))

-- `ToRequestLine`
unfoldable pub to_request_line : LearnedRule → Str
to_request_line r = r.subject ++ (codes ", " ++ (r.obj ++ (codes ", " ++ r.act)))

-- `LearnedRuleFromRecord`
unfoldable pub learned_rule_from_record : Str → Record → Str → Option LearnedRule
unfolding is_correctable ◌==◌
learned_rule_from_record now r subject =
    if not (is_correctable r)
    then none
    else some (record {
      id = r.id;
      subject = subject;
      obj = r.resource;
      act = r.intent;
      effect = if r.feedback == feedback_deny then codes "deny" else codes "allow";
      agent = r.agent;
      policy_set = r.policy_set;
      was_allowed = r.is_allowed;
      reason = r.reason;
      created_time = now;
    })

-- The test and the repair of the loop of `ParseLearnedRules`; `none` is a null in the array.
unfoldable pub is_complete : LearnedRule → Bool
unfolding ◌==◌
is_complete r = not (r.obj == []) && (not (r.act == []) && not (r.subject == []))

unfoldable pub with_effect : LearnedRule → LearnedRule
unfolding ◌==◌
with_effect r = if not (r.effect == codes "deny") then record r { effect = codes "allow" } else r

unfoldable pub complete_rules : List (Option LearnedRule) → List LearnedRule
unfolding is_complete with_effect
complete_rules [] = []
complete_rules (none ∷ rs) = complete_rules rs
complete_rules (some r ∷ rs) =
    if is_complete r then with_effect r ∷ complete_rules rs else complete_rules rs

-- `ParseLearnedRules`
unfoldable pub parse_learned_rules :
    (Str → Option (List (Option LearnedRule))) → Str → List LearnedRule
unfolding complete_rules ◌==◌
parse_learned_rules unmarshal value =
    if trim_space value == []
    then []
    else elim (unmarshal value) [ none ↦ [] | some rules ↦ complete_rules rules ]

-- `sorted[i].CreatedTime > sorted[j].CreatedTime`
unfoldable pub is_newer : LearnedRule → LearnedRule → Bool
unfolding str_lt
is_newer a b = str_lt b.created_time a.created_time

-- `MarshalLearnedRules`
unfoldable pub marshal_learned_rules :
    (List LearnedRule → Option Str) → List LearnedRule → Option Str
marshal_learned_rules marshal rules = marshal (sort_by is_newer rules)

-- `UpsertLearnedRule`
unfoldable pub upsert_learned_rule : List LearnedRule → Str → Option LearnedRule → List LearnedRule
unfolding ◌==◌
upsert_learned_rule [] record_id none = []
upsert_learned_rule [] record_id (some rule) = rule ∷ []
upsert_learned_rule (r ∷ rs) record_id rule =
    if not (r.id == record_id)
    then r ∷ upsert_learned_rule rs record_id rule
    else upsert_learned_rule rs record_id rule
