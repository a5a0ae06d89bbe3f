-- ===== src/Record/Store.antt =====
-- object/record_store.go: the record table, as the list of its rows in the order of insertion. What
-- the database and the clock give is an argument: the error of a call, and the time.
use casdoor_aiguard.Common.Sort.{sort_by}
use casdoor_aiguard.Common.Text.{Str, ◌==◌, to_lower}
use casdoor_aiguard.Common.{
  ℕ, zero, suc, Bool, not, ◌&&◌, ◌||◌, Option, none, some, List, [], ◌∷◌, ◌++◌, ltb, take, any,
  keep_if, if◌then◌else◌,
}
use casdoor_aiguard.Record.{
  Record, is_correctable, normalize, feedback_none, feedback_allow, feedback_deny,
}
use mathlib.Core.List.{reverse}

abbrev pub Table : Type 0
Table = List Record

-- The errors of the database, `none` where it answers. A statement that fails changes no row.
pub record DbErrors : Type 0 where
  pub insert : Option Str
  pub get : Option Str
  pub update : Option Str
  pub find : Option Str

-- `db.Insert` of one row, which may fail: the id is the primary key, so it does on a known id.
unfoldable pub has_id : Str → Table → Bool
unfolding any ◌==◌
has_id id rows = any (λ r. r.id == id) rows

unfoldable pub db_insert : Option Str → Record → Table → Table
unfolding has_id
db_insert (some e) r rows = rows
db_insert none r rows = if has_id r.id rows then rows else rows ++ r ∷ []

-- `AddRecord`; an insert that fails is logged and leaves the table as it was
unfoldable pub add_record : DbErrors → Str → Str → Record → Table → Table
unfolding normalize db_insert
add_record db uuid now r rows = db_insert db.insert (normalize uuid now r) rows

-- `db.Where("id = ?", id).Get(&record)`
unfoldable pub get_by_id : Str → Table → Option Record
unfolding ◌==◌
get_by_id id [] = none
get_by_id id (r ∷ rows) = if r.id == id then some r else get_by_id id rows

-- `db.ID(id).Cols("feedback", "feedback_by", "feedback_time").Update(&record)`
unfoldable pub update_feedback : Record → Table → Table
unfolding ◌==◌
update_feedback new [] = []
update_feedback new (r ∷ rows) =
    (if r.id == new.id
      then record r {
        feedback = new.feedback;
        feedback_by = new.feedback_by;
        feedback_time = new.feedback_time;
      }
      else r)
    ∷ update_feedback new rows

pub data FeedbackResult : Type 0 where
  corrected : Record → FeedbackResult
  unknown_feedback not_found not_ruled_on : FeedbackResult
  db_failed : Str → FeedbackResult

-- The three columns of a correction, as they are written.
unfoldable pub with_feedback : Str → Str → Str → Record → Record
unfolding ◌==◌
with_feedback feedback by now r =
    if feedback == feedback_none
    then record r { feedback = feedback; feedback_by = []; feedback_time = [] }
    else record r { feedback = feedback; feedback_by = by; feedback_time = now }

-- The update of a record that may be corrected, given its error.
unfoldable pub write_correction : Record → Option Str → Table → FeedbackResult × Table
unfolding update_feedback
write_correction new (some e) rows = (db_failed e, rows)
write_correction new none rows = (corrected new, update_feedback new rows)

unfoldable pub correct_found :
    DbErrors → Str → Str → Str → Option Record → Table → FeedbackResult × Table
unfolding with_feedback write_correction is_correctable
correct_found db feedback by now none rows = (not_found, rows)
correct_found db feedback by now (some r) rows =
    if not (is_correctable r)
    then (not_ruled_on, rows)
    else write_correction (with_feedback feedback by now r) db.update rows

-- Behind the lookup, given its error.
unfoldable pub correct_read :
    DbErrors → Str → Str → Str → Str → Option Str → Table → FeedbackResult × Table
unfolding correct_found get_by_id
correct_read db id feedback by now (some e) rows = (db_failed e, rows)
correct_read db id feedback by now none rows =
    correct_found db feedback by now (get_by_id id rows) rows

-- `SetRecordFeedback`
unfoldable pub set_record_feedback :
    DbErrors → Str → Str → Str → Str → Table → FeedbackResult × Table
unfolding correct_read ◌==◌
set_record_feedback db id feedback by now rows =
    if not (feedback == feedback_none)
      && not (feedback == feedback_allow)
      && not (feedback == feedback_deny)
    then (unknown_feedback, rows)
    else correct_read db id feedback by now db.get rows

pub record RecordFilter : Type 0 where
  pub agent : Str
  pub event_type : Str
  pub outcome : Str
  pub session_key : Str

-- A clause of the query: void if the filter's field is empty; `LOWER` is on ASCII.
unfoldable pub selects : Str → Str → Bool
unfolding to_lower ◌==◌
selects wanted value = wanted == [] || to_lower value == to_lower wanted

unfoldable pub passes_filter : RecordFilter → Record → Bool
unfolding selects
passes_filter f r =
    selects f.agent r.agent
    && selects f.event_type r.event_type
    && selects f.outcome r.outcome
    && selects f.session_key r.session_key

unfoldable pub limited : ℕ → List Record → List Record
limited zero rs = rs
limited (suc n) rs = take (suc n) rs

-- `recordTime`, over `time.Parse`: a time that cannot be parsed is the zero time.
unfoldable pub record_time : (Str → Option ℕ) → Record → ℕ
record_time parse r = elim (parse r.created_time) [ some t ↦ t | none ↦ 0 ]

-- `recordTime(a).After(recordTime(b))`
unfoldable pub is_after : (Str → Option ℕ) → Record → Record → Bool
unfolding record_time
is_after parse a b = ltb (record_time parse b) (record_time parse a)

-- The rows that the query gives; a limit of 0 stands for any that is not positive.
unfoldable pub found_rows : RecordFilter → ℕ → Table → List Record
unfolding limited keep_if passes_filter
found_rows filter limit rows = limited limit (keep_if (passes_filter filter) (reverse rows))

-- `ListRecordsFiltered`
unfoldable pub list_records_filtered :
    DbErrors → (Str → Option ℕ) → RecordFilter → ℕ → Table → List Record
unfolding sort_by is_after found_rows
list_records_filtered db parse filter limit rows = elim db.find [
  | some e ↦ []
  | none ↦ sort_by (is_after parse) (found_rows filter limit rows)
]

-- `CorrectedRecords`
unfoldable pub corrected_records : DbErrors → (Str → Option ℕ) → Table → List Record
unfolding list_records_filtered ◌==◌
corrected_records db parse rows =
    keep_if (λ r. not (r.feedback == feedback_none))
      (list_records_filtered db parse
        (record { agent = []; event_type = []; outcome = []; session_key = [] }) 0 rows)
