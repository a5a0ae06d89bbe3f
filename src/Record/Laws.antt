-- ===== src/Record/Laws.antt =====
-- object/record.go, `normalize`, and object/record_store.go, `ListRecordsFiltered`.
use casdoor_aiguard.Common.Sort.{IsSorted}
use casdoor_aiguard.Common.Text.{Str, ◌==◌, to_lower}
use casdoor_aiguard.Common.{
  none, some, ◌≤◌, ◌⊎◌, ℕ, ◌-◌, ◌<◌, Bool, true, false, not, Option, List, [], ◌∷◌, ◌++◌, ◌≡◌, ◌≢◌,
  refl, arith, Bool-cases, inl, inr, ltb, eqb, length, take, take-append, take_all, length-append,
  length-take, append-nil, if◌then◌else◌, ◌∙◌, keep_if,
}
use casdoor_aiguard.Record.Store.{Table, RecordFilter, record_time, is_after}
use casdoor_aiguard.Record.{
  Record, is_correctable, normalize, cap, or_default, object_mark, title_mark,
  max_record_object_bytes, max_record_title_bytes,
}
use mathlib.Core.List.{Perm, reverse}

take-take : (n : ℕ) (s m : Str) → n < length s → take n (take n s ++ m) ≡ take n s
take-take n s m h =
    take-append n (take n s) m
    ∙ ground (
      arith,
      length-take n s,
      take_all n (take n s),
      append-nil (take n s),
      take_zero (n - length (take n s)) m,
    )
  where
    take_zero : (k : ℕ) (t : Str) → k ≡ 0 → take k t ≡ []
    take_zero k t e = rw e

long_again : (n : ℕ) (s m : Str) → m ≢ [] → n < length s → ltb n (length (take n s ++ m)) ≡ true
long_again n s [] ne h = absurd (ne refl)
long_again n s (c ∷ m) ne h = ground (arith, length-append (take n s) (c ∷ m), length-take n s)

cap_idem : (n : ℕ) (m s : Str) → m ≢ [] → cap n m (cap n m s) ≡ cap n m s
unfolding cap
cap_idem n m s ne = elim (Bool-cases (ltb n (length s))) [
  | inl e ↦ rw (e, long_again n s m ne (ground arith), take-take n s m (ground arith))
  | inr e ↦ rw (e, e)
]

or_default_nonempty : (s d : Str) → d ≢ [] → or_default s d ≢ []
unfolding ◌==◌
or_default_nonempty [] d ne = ne
or_default_nonempty (c ∷ s) d ne = λ e. absurd (cons≢nil e)
  where
    cons≢nil : {x : ℕ} {xs : Str} → x ∷ xs ≢ []
    cons≢nil e = cc

or_default_kept : (s d : Str) → s ≢ [] → or_default s d ≡ s
unfolding ◌==◌
or_default_kept [] d ne = absurd (ne refl)
or_default_kept (c ∷ s) d ne = refl

or_default_idem : (s d : Str) → or_default (or_default s d) d ≡ or_default s d
unfolding ◌==◌
or_default_idem [] [] = refl
or_default_idem [] (c ∷ d) = refl
or_default_idem (c ∷ s) d = refl

allowed_idem :
    (t a : Bool)
    → (if not t then true else (if not t then true else a)) ≡ (if not t then true else a)
allowed_idem true a = refl
allowed_idem false a = refl

-- Completing a record a second time, with any other id and time, changes nothing of it, if the id and
-- the time that the first one assigned are not empty.
pub normalize_idem :
    (u now v later : Str) (r : Record)
    → u ≢ []
    → now ≢ []
    → normalize v later (normalize u now r) ≡ normalize u now r
unfolding normalize is_correctable
normalize_idem u now v later r hu hn = rw (
  or_default_kept (or_default r.id u) v (or_default_nonempty r.id u hu),
  or_default_kept (or_default r.name (or_default r.id u)) (or_default r.id u)
      (or_default_nonempty r.name (or_default r.id u) (or_default_nonempty r.id u hu)),
  or_default_idem r.owner r.agent,
  or_default_kept (or_default r.created_time now) later (or_default_nonempty r.created_time now hn),
  allowed_idem r.is_triggered r.is_allowed,
  cap_idem max_record_object_bytes object_mark r.payload cons≢nil,
  cap_idem max_record_title_bytes title_mark r.title cons≢nil,
)
  where
    cons≢nil : {x : ℕ} {xs : Str} → x ∷ xs ≢ []
    cons≢nil e = cc

unfoldable pub is_at : (Str → Option ℕ) → ℕ → Record → Bool
is_at parse t r = eqb (record_time parse r) t

-- A field that a filter asks for: it asks for nothing, or the row has it, in whatever case.
abbrev pub Asks : Str → Str → Type 0
Asks wanted value = (wanted ≡ []) ⊎ (to_lower value ≡ to_lower wanted)

-- A row that a filter selects.
pub record Selected (f : RecordFilter) (r : Record) : Type 0 where
  pub agent : Asks f.agent r.agent
  pub event_type : Asks f.event_type r.event_type
  pub outcome : Asks f.outcome r.outcome
  pub session_key : Asks f.session_key r.session_key

-- The rows that a filter selects, in their order.
pub data Selection (f : RecordFilter) : List Record → List Record → Type 0 where
  end_of_rows : Selection f [] []
  chosen :
      {r : Record} {rows out : List Record}
      → Selected f r
      → Selection f rows out
      → Selection f (r ∷ rows) (r ∷ out)
  passed_over :
      {r : Record} {rows out : List Record}
      → ¬ Selected f r
      → Selection f rows out
      → Selection f (r ∷ rows) out

-- The first rows of a list, as many as a limit lets through: all if there is none or there are no more
-- than it, else just as many as it says.
pub data FirstOf (limit : ℕ) (all window : List Record) : Type 0 where
  unlimited : limit ≡ 0 → window ≡ all → FirstOf limit all window
  fits : length all ≤ limit → window ≡ all → FirstOf limit all window
  cut :
      (rest : List Record)
      → limit ≢ 0
      → length window ≡ limit
      → window ++ rest ≡ all
      → FirstOf limit all window

-- What a query answers: none of it is after one before it, and it is a window of the selected rows,
-- with rows of one time in the order of that window.
pub record IsAnswer (parse : Str → Option ℕ) (f : RecordFilter) (limit : ℕ) (rows : Table)
    (out : List Record) : Type 0 where
  pub selected : List Record
  pub window : List Record
  pub selection : Selection f (reverse rows) selected
  pub first : FirstOf limit selected window
  pub same_rows : Perm out window
  pub in_order : IsSorted (is_after parse) out
  pub stable : (t : ℕ) → keep_if (is_at parse t) out ≡ keep_if (is_at parse t) window

-- The answer of a query, given the error of the database: nothing, or what was asked for.
abbrev pub Listed : (Str → Option ℕ) → RecordFilter → ℕ → Table → List Record → Option Str → Type 0
Listed parse f limit rows out (some e) = out ≡ []
Listed parse f limit rows out none = IsAnswer parse f limit rows out
