-- ===== src/Record/Sessions.antt =====
-- object/record_store.go: the sessions that the records fall into, and the live titles of sessions.
pub mod Titles
pub mod Groups
pub mod Listing
use casdoor_aiguard.Common.Dict.{Dict, lookup, insert, erase}
use casdoor_aiguard.Common.Text.{Str, ◌==◌, codes, trim_space}
use casdoor_aiguard.Common.{
  ℕ, zero, suc, ◌+◌, ◌-◌, Bool, true, false, not, ◌&&◌, ◌||◌, Option, none, some, List, [], ◌∷◌,
  ◌++◌, leb, ltb, length, take, keep_if, if◌then◌else◌,
}
use casdoor_aiguard.Record.Store.{RecordFilter, Table, list_records_filtered}
use casdoor_aiguard.Record.{Record, max_record_title_bytes, title_mark}

-- `utf8.RuneStart`
abbrev pub is_rune_start : ℕ → Bool
is_rune_start c = not (leb 0x80 c && ltb c 0xC0)

-- `utf8.RuneStart(s[i])`; an index that is out of range is not met
unfoldable pub starts_rune_at : Str → ℕ → Bool
starts_rune_at [] i = true
starts_rune_at (c ∷ s) zero = is_rune_start c
starts_rune_at (c ∷ s) (suc i) = starts_rune_at s i

-- The loop of `SetSessionTitle` that steps back to the start of a character.
unfoldable pub rune_limit : Str → ℕ → ℕ
unfolding starts_rune_at
rune_limit s zero = zero
rune_limit s (suc n) =
    let lower = rune_limit s n in if starts_rune_at s (suc n) then suc n else lower

abbrev pub title_room : ℕ
title_room = max_record_title_bytes - length title_mark

unfoldable pub cut_title : Str → Str
unfolding rune_limit
cut_title s =
    if ltb max_record_title_bytes (length s)
    then take (rune_limit s title_room) s ++ title_mark
    else s

-- `SetSessionTitle`, on the map of live titles
unfoldable pub set_session_title : Str → Str → Dict Str → Dict Str
unfolding insert erase ◌==◌
set_session_title session_key title titles =
    if cut_title (trim_space title) == []
    then erase session_key titles
    else insert session_key (cut_title (trim_space title)) titles

-- `SessionSummary`
pub record SessionSummary : Type 0 where
  pub session_key : Str
  pub agent : Str
  pub title : Str
  pub record_count : ℕ
  pub first_time : Str
  pub last_time : Str
  pub blocked_count : ℕ

-- The first loop of `sessionTitle`: the newest title that a record carries.
unfoldable pub newest_title : List Record → Option Str
unfolding ◌==◌
newest_title [] = none
newest_title (r ∷ rs) = if not (r.title == []) then some r.title else newest_title rs

-- What the second loop makes of one record.
unfoldable pub touched : Record → Option Str
unfolding ◌==◌
touched r =
    if not (r.mcp_server == [])
    then if not (r.mcp_tool == [])
      then some (r.mcp_server ++ (codes " / " ++ r.mcp_tool))
      else some r.mcp_server
    else if not (r.tool_name == [])
    then some r.tool_name
    else none

-- The second loop, which runs from the oldest record to the newest, and what follows it. The group
-- is given as its first record and the rest.
unfoldable pub oldest_touched : List Record → Option Str
unfolding touched
oldest_touched [] = none
oldest_touched (r ∷ rs) = elim (oldest_touched rs) [ some t ↦ some t | none ↦ touched r ]

abbrev pub oldest : Record → List Record → Record
oldest r [] = r
oldest r (s ∷ rs) = oldest s rs

-- `sessionTitle`
unfoldable pub session_title : Record → List Record → Str → Str
unfolding newest_title oldest_touched ◌==◌
session_title r rs live = if not (live == []) then live else elim (newest_title (r ∷ rs)) [
  | some t ↦ t
  | none ↦ elim (oldest_touched (r ∷ rs)) [
    | some t ↦ t
    | none ↦ (oldest r rs).event_type ++ (codes " " ++ (oldest r rs).action)
  ]
]

-- `groups` and `order` of `ListSessions`.
pub record Grouping : Type 0 where
  pub order : List Str
  pub groups : Dict (List Record)

abbrev pub group_of : Str → Dict (List Record) → List Record
group_of k groups = elim (lookup k groups) [ some g ↦ g | none ↦ [] ]

-- `if _, seen := groups[key]; !seen { order = append(order, key) }`
abbrev pub with_key : Option (List Record) → List Str → Str → List Str
with_key none order key = order ++ key ∷ []
with_key (some _) order key = order

-- One round of the first loop.
unfoldable pub group_record : Record → Grouping → Grouping
unfolding lookup insert ◌==◌
group_record r g = if r.session_key == [] then g else record {
  order = with_key (lookup r.session_key g.groups) g.order r.session_key;
  groups = insert r.session_key (group_of r.session_key g.groups ++ r ∷ []) g.groups;
}

unfoldable pub group_records : List Record → Grouping → Grouping
unfolding group_record
group_records [] g = g
group_records (r ∷ rs) g = group_records rs (group_record r g)

unfoldable pub is_blocked : Record → Bool
is_blocked r = r.correctable && not r.is_allowed

abbrev pub live_title : Str → Dict Str → Str
live_title k titles = elim (lookup k titles) [ some t ↦ t | none ↦ [] ]

-- One round of the second loop; an empty group would stop the program, as `none` says.
unfoldable pub summarize : Str → List Record → Dict Str → Option SessionSummary
unfolding session_title is_blocked keep_if
summarize key [] titles = none
summarize key (r ∷ rs) titles = some (record {
  session_key = key;
  agent = r.agent;
  title = session_title r rs (live_title key titles);
  record_count = length (r ∷ rs);
  first_time = (oldest r rs).created_time;
  last_time = r.created_time;
  blocked_count = length (keep_if is_blocked (r ∷ rs));
})

unfoldable pub summarize_all :
    List Str → Dict (List Record) → Dict Str → Option (List SessionSummary)
unfolding summarize
summarize_all [] groups titles = some []
summarize_all (k ∷ ks) groups titles = elim (summarize k (group_of k groups) titles) [
  | none ↦ none
  | some s ↦ elim (summarize_all ks groups titles) [ none ↦ none | some ss ↦ some (s ∷ ss) ]
]

-- `ListSessions`, on the records that its query gives
unfoldable pub list_sessions : List Record → Dict Str → Option (List SessionSummary)
unfolding summarize_all group_records
list_sessions all titles =
    let g = group_records all (record { order = []; groups = [] }) in
    summarize_all g.order g.groups titles
