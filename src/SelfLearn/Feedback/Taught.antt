-- ===== src/SelfLearn/Feedback/Taught.antt =====
-- controllers/selflearn.go: what correcting a record teaches.
use casdoor_aiguard.Common.Sort.{sort_by, sort_by-All}
use casdoor_aiguard.Common.Text.{Str, ◌==◌, trim_space}
use casdoor_aiguard.Common.{
  false, [], ◌≢◌, Option, none, some, List, ◌≡◌, All, map, if◌then◌else◌, ◌⊎◌,
}
use casdoor_aiguard.Record.Store.{DbErrors, corrected, set_record_feedback}
use casdoor_aiguard.Record.{Record, feedback_none}
use casdoor_aiguard.SelfLearn.Feedback.{Learning, Answer, learned}
use casdoor_aiguard.SelfLearn.Feedback.Laws.{Replaces, Teaches, IsKept, complete_rules-map}
use casdoor_aiguard.SelfLearn.{
  LearnedRule, is_newer, learned_rule_from_record, marshal_learned_rules, parse_learned_rules,
}

-- The rule that a correction leaves behind, if any.
abbrev taught : Str → Str → Record → Option LearnedRule
taught now user r =
    if r.feedback == feedback_none then none else learned_rule_from_record now r user

-- What the JSON codec must do: read back what it wrote, which is not white space.
pub record IsCodec (unmarshal : Str → Option (List (Option LearnedRule)))
    (marshal : List LearnedRule → Option Str) : Type 0 where
  pub read_back :
      (rs : List LearnedRule) (v : Str)
      → marshal rs ≡ some v
      → unmarshal v ≡ some (map (λ r. some r) rs)
  pub visible :
      (rs : List LearnedRule) (v : Str) → marshal rs ≡ some v → (trim_space v == []) ≡ false

module _ (unmarshal : Str → Option (List (Option LearnedRule)))
    (marshal : List LearnedRule → Option Str) (codec : IsCodec unmarshal marshal) where
  -- Rules that are stored are read back in the order of storage.
  pub parse-marshal :
      (rs : List LearnedRule) (v : Str)
      → All IsKept rs
      → marshal_learned_rules marshal rs ≡ some v
      → parse_learned_rules unmarshal v ≡ sort_by is_newer rs
  unfolding marshal_learned_rules parse_learned_rules
  parse-marshal rs v h e =
      rw (codec.visible (sort_by is_newer rs) v e, codec.read_back (sort_by is_newer rs) v e)
        (complete_rules-map (sort_by is_newer rs) (sort_by-All is_newer IsKept rs h))

  -- What a correction leaves: the record corrected and its rule learned, or no rule changed.
  pub data Taught (db : DbErrors) (id feedback now user : Str) (st : Learning)
      : Answer × Learning → Type 0 where
    taught_rule :
        (r : Record) (out : Learning)
        → set_record_feedback db id feedback user now st.table ≡ (corrected r, out.table)
        → (rule : Option LearnedRule) → Teaches now user r rule
        → Replaces
            (parse_learned_rules unmarshal st.property)
            r.id
            rule
            (parse_learned_rules unmarshal out.property)
        → Taught db id feedback now user st
            (learned r (parse_learned_rules unmarshal out.property), out)
    not_taught :
        (answer : Answer) (out : Learning)
        → ((r : Record) (rules : List LearnedRule) → answer ≢ learned r rules)
        → out.property ≡ st.property
        → (out.table ≡ st.table)
          ⊎ (out.table ≡ (set_record_feedback db id feedback user now st.table).1)
        → Taught db id feedback now user st (answer, out)
