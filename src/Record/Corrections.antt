-- ===== src/Record/Corrections.antt =====
-- object/record_store.go, SetRecordFeedback: what a correction changes, and when it is refused.
use casdoor_aiguard.Common.Text.{Str}
use casdoor_aiguard.Common.{true, false, none, some, ◌≡◌, ◌⊎◌}
use casdoor_aiguard.Record.Store.{
  DbErrors, db_failed, Table, get_by_id, FeedbackResult, corrected, unknown_feedback, not_found,
  not_ruled_on, with_feedback,
}
use casdoor_aiguard.Record.{Record, is_correctable, feedback_none, feedback_allow, feedback_deny}

-- What a user may say of a record: a verdict, or nothing, which takes a verdict back.
abbrev pub IsFeedback : Str → Type 0
IsFeedback f = (f ≡ feedback_none) ⊎ ((f ≡ feedback_allow) ⊎ (f ≡ feedback_deny))

-- The table after a correction: the record of that id carries it, and no other id is touched.
abbrev pub IsCorrectedBy : Str → Str → Str → Str → Record → Table → Table → Type 0
IsCorrectedBy id feedback by now r rows out =
    (get_by_id id out ≡ some (with_feedback feedback by now r))
    × ((k : Str) → (k ≡ id) ⊎ (get_by_id k out ≡ get_by_id k rows))

-- What a correction comes to.
pub data Corrects (db : DbErrors) (id feedback by now : Str) (rows : Table)
    : FeedbackResult × Table → Type 0 where
  made :
      (r : Record) (out : Table)
      → IsFeedback feedback
      → db.get ≡ none
      → get_by_id id rows ≡ some r
      → is_correctable r ≡ true
      → db.update ≡ none
      → IsCorrectedBy id feedback by now r rows out
      → Corrects db id feedback by now rows (corrected (with_feedback feedback by now r), out)
  misspelt : ¬ IsFeedback feedback → Corrects db id feedback by now rows (unknown_feedback, rows)
  unreadable :
      {e : Str}
      → IsFeedback feedback
      → db.get ≡ some e
      → Corrects db id feedback by now rows (db_failed e, rows)
  missing :
      IsFeedback feedback
      → db.get ≡ none
      → get_by_id id rows ≡ none
      → Corrects db id feedback by now rows (not_found, rows)
  not_judged :
      (r : Record)
      → IsFeedback feedback
      → db.get ≡ none
      → get_by_id id rows ≡ some r
      → is_correctable r ≡ false
      → Corrects db id feedback by now rows (not_ruled_on, rows)
  not_written :
      {e : Str}
      → (r : Record) → IsFeedback feedback
      → db.get ≡ none
      → get_by_id id rows ≡ some r
      → is_correctable r ≡ true
      → db.update ≡ some e
      → Corrects db id feedback by now rows (db_failed e, rows)

module _ (new : Record) where
  abbrev mark : Record → Record
  mark r = record r {
    feedback = new.feedback;
    feedback_by = new.feedback_by;
    feedback_time = new.feedback_time;
  }
