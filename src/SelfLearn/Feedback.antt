-- ===== src/SelfLearn/Feedback.antt =====
-- controllers/selflearn.go: correcting a record and learning its rule in one step, and forgetting a
-- rule. The JSON codec, the clock and the write to Casdoor are parameters.
pub mod Laws
pub mod Taught
pub mod Forgotten
use casdoor_aiguard.Common.Text.{Str, ◌==◌}
use casdoor_aiguard.Common.{Bool, true, false, Option, none, some, List, [], ◌∷◌, if◌then◌else◌}
use casdoor_aiguard.Record.Store.{
  Table, DbErrors, db_failed, FeedbackResult, corrected, unknown_feedback, not_found, not_ruled_on,
  set_record_feedback,
}
use casdoor_aiguard.Record.{Record, feedback_none}
use casdoor_aiguard.SelfLearn.{
  LearnedRule, learned_rule_from_record, parse_learned_rules, marshal_learned_rules,
  upsert_learned_rule,
}

-- The record table, and the property of the Casdoor user that holds the learned rules.
pub record Learning : Type 0 where
  pub table : Table
  pub property : Str

pub data Answer : Type 0 where
  id_required not_signed_in no_rule not_encoded : Answer
  not_corrected : FeedbackResult → Answer
  not_saved : Str → Answer
  learned : Record → List LearnedRule → Answer
  forgotten : List LearnedRule → Answer

-- The rule that a corrected record teaches: none inside for a correction that was withdrawn, none
-- for a record with no operation to learn from.
unfoldable pub rule_of : Str → Str → Record → Option (Option LearnedRule)
unfolding ◌==◌
rule_of now user r =
    if r.feedback == feedback_none
    then some none
    else elim (learned_rule_from_record now r user) [ some rule ↦ some (some rule) | none ↦ none ]

module _ (unmarshal : Str → Option (List (Option LearnedRule)))
    (marshal : List LearnedRule → Option Str) where
  -- `UpdateUserProperties`, by its result, with what is answered.
  unfoldable pub save_property :
      (List LearnedRule → Answer) → Option Str → Option Str → Learning → Answer × Learning
  save_property done saved none st = (not_encoded, st)
  save_property done none (some value) st =
      (done (parse_learned_rules unmarshal value), record st { property = value })
  save_property done (some e) (some value) st = (not_saved e, st)

  unfoldable pub learn :
      Option Str → Record → Option (Option LearnedRule) → Learning → Answer × Learning
  learn saved r none st = (no_rule, st)
  learn saved r (some rule) st =
      save_property (λ rules. learned r rules) saved
        (marshal_learned_rules marshal
          (upsert_learned_rule (parse_learned_rules unmarshal st.property) r.id rule))
        st

  unfoldable pub learn_corrected :
      Str → Str → Option Str → FeedbackResult × Table → Learning → Answer × Learning
  learn_corrected now user saved (corrected r, rows) st =
      learn saved r (rule_of now user r) (record st { table = rows })
  learn_corrected now user saved (unknown_feedback, rows) st = (not_corrected unknown_feedback, st)
  learn_corrected now user saved (not_found, rows) st = (not_corrected not_found, st)
  learn_corrected now user saved (not_ruled_on, rows) st = (not_corrected not_ruled_on, st)
  learn_corrected now user saved (db_failed e, rows) st = (not_corrected (db_failed e), st)

  -- `UpdateRecordFeedback`, when the body has been decoded; `none` is nobody signed in
  unfoldable pub update_record_feedback :
      DbErrors → Str → Str → Str → Option Str → Option Str → Learning → Answer × Learning
  unfolding ◌==◌
  update_record_feedback db id feedback now saved none st =
      if id == [] then (id_required, st) else (not_signed_in, st)
  update_record_feedback db id feedback now saved (some user) st =
      if id == []
      then (id_required, st)
      else learn_corrected now user saved (set_record_feedback db id feedback user now st.table) st

  -- What `DeleteLearnedRule` still does when the rule is gone: withdraw the correction, if it can.
  unfoldable pub withdraw : DbErrors → Str → Str → Str → Answer × Learning → Answer × Learning
  withdraw db id user now (forgotten rules, st) = (
    forgotten rules,
    record st { table = (set_record_feedback db id feedback_none user now st.table).1 },
  )
  withdraw db id user now (other, st) = (other, st)

  -- `DeleteLearnedRule`
  unfoldable pub delete_learned_rule :
      DbErrors → Str → Str → Option Str → Option Str → Learning → Answer × Learning
  unfolding ◌==◌
  delete_learned_rule db id now saved none st =
      if id == [] then (id_required, st) else (not_signed_in, st)
  delete_learned_rule db id now saved (some user) st =
      if id == []
      then (id_required, st)
      else withdraw db id user now (
          save_property (λ rules. forgotten rules) saved
            (marshal_learned_rules marshal
              (upsert_learned_rule (parse_learned_rules unmarshal st.property) id none))
            st)
