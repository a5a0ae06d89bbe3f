-- ===== src/Tests/Stores.antt =====
-- Settings with one provider, one switched installation, and a table of one judged record.
use casdoor_aiguard.Common.Dict.{lookup}
use casdoor_aiguard.Record.Sessions.{SessionSummary, cut_title, list_sessions, set_session_title}
use casdoor_aiguard.Record.Sessions.Listing.{IsListing, list_sessions-IsListing}
use casdoor_aiguard.Record.Sessions.Titles.{IsCut, set_session_title_lem}
use casdoor_aiguard.Common.Text.{trim_space, Str, ◌==◌, codes}
use casdoor_aiguard.Common.{
  ℕ, true, false, Option, none, some, [], ◌∷◌, ◌≡◌, refl, ap, map, All, if◌then◌else◌, length, ◌≤◌,
  List,
}
use casdoor_aiguard.Event.Capture.{
  capture_string, capture_all, empty_capture, capture_string-capture_all,
}
use casdoor_aiguard.Event.{truncate_at}
use casdoor_aiguard.Record.Store.{DbErrors, RecordFilter, Table}
use casdoor_aiguard.Record.{Record, max_record_title_bytes}
use casdoor_aiguard.Settings.Providers.{preserve_api_keys_wire}
use casdoor_aiguard.Settings.Update.{
  Store, Built, next, Undo, Restores, Committed, get_settings, mutate_settings_with_undo,
  mutate_settings_with_undo-Committed,
}
use casdoor_aiguard.Settings.{
  LlmProvider, LlmSettings, Settings, from_wire, preserve_api_keys, to_wire, provider_by_id,
}
use casdoor_aiguard.Tests.Decisions.{settings}
use mathlib.Core.List.{flatten}

abbrev provider : LlmProvider
provider = record {
  id = codes "p1";
  name = codes "First";
  base_url = codes "https://llm";
  api_key = codes "key";
  model = codes "m";
  small_fast_model = [];
}

abbrev llm : LlmSettings
llm = record {
  providers = provider ∷ [];
  active =
      record {
        agent_id = codes "codex";
        path = codes "/c";
        owner = codes "u";
        provider_id = codes "p1";
      }
      ∷ [];
}

abbrev without_key : LlmSettings
without_key = record llm { providers = record provider { api_key = [] } ∷ [] }

abbrev store : Store Str
store = record { current = some settings; file = some settings; world = codes "before" }

-- A change that also writes an agent's file, and how it is taken back.
abbrev switched : Settings → Str → Built Str × Str
switched s w = (next (record s { llm = llm }) (some (λ _. (none, codes "before"))), codes "after")

-- A disk that is full.
abbrev disk_full : Settings → Option Str
disk_full s = some (codes "no space left")

switched_keeps :
    (e : Str)
    → (switched (get_settings settings disk_full store) (codes "before")).0 ≡ Built.refused e
    → (switched (get_settings settings disk_full store) (codes "before")).1 ≡ codes "before"
switched_keeps e h = cc

switched-Restores :
    (n : Settings) (undo : Option (Undo Str))
    → (switched (get_settings settings disk_full store) (codes "before")).0 ≡ next n undo
    → Restores settings disk_full undo (codes "after") (codes "before")
switched-Restores n none h = cc
switched-Restores n (some undo) h =
    let e : undo ≡ (λ w. (none, codes "before")) = cc h in ap (λ f. f (codes "after")) e

abbrev pub judged : Record
judged = record {
  id = codes "r1";
  owner = [];
  name = [];
  created_time = [];
  agent = codes "openclaw";
  agent_path = [];
  client_ip = [];
  event_type = codes "tool";
  action = [];
  outcome = [];
  session_key = codes "s";
  user = [];
  channel = [];
  title = codes "t";
  prompt_id = [];
  tool_use_id = [];
  tool_name = [];
  mcp_server = [];
  mcp_tool = [];
  model = [];
  duration_ms = 3;
  payload = codes "{}";
  detail = [];
  is_triggered = true;
  resource = codes "x#y";
  intent = codes "mcp.tool_call";
  policy_set = codes "strict";
  is_allowed = false;
  reason = codes "denied";
  feedback = [];
  feedback_by = [];
  feedback_time = [];
  correctable = false;
}

abbrev pub table : Table
table = judged ∷ record judged { id = codes "r2"; agent = codes "codex" } ∷ []

abbrev by_agent : RecordFilter
by_agent = record { agent = codes "OpenClaw"; event_type = []; outcome = []; session_key = [] }

abbrev no_time : Str → Option ℕ
no_time s = none

capture_string-capture_all_example :
    capture_string (capture_all (empty_capture 3) (codes "ab" ∷ codes "cd" ∷ []))
    ≡ truncate_at 3 (flatten (codes "ab" ∷ codes "cd" ∷ []))
capture_string-capture_all_example = capture_string-capture_all 3 (codes "ab" ∷ codes "cd" ∷ [])

preserve_api_keys_wire_example :
    (preserve_api_keys
        (record llm { providers = map (λ p. from_wire (to_wire p)) (provider ∷ []) })
        llm
      ≡ llm)
    × All (λ w. w.api_key ≡ []) (map to_wire (provider ∷ []))
unfolding provider_by_id
preserve_api_keys_wire_example = preserve_api_keys_wire llm (refl, tt)

mutate_settings_with_undo-Committed_example :
    Committed settings disk_full switched store
      (mutate_settings_with_undo settings disk_full switched store)
mutate_settings_with_undo-Committed_example =
    mutate_settings_with_undo-Committed settings disk_full switched store switched_keeps
      switched-Restores

-- A database that answers.
abbrev pub answering : DbErrors
answering = record { insert = none; get = none; update = none; find = none }

set_session_title_lem_example :
    IsCut (trim_space (codes " hi ")) (cut_title (trim_space (codes " hi ")))
    × (length (cut_title (trim_space (codes " hi "))) ≤ max_record_title_bytes)
    × (lookup (codes "s") (set_session_title (codes "s") (codes " hi ") []) ≡ (
        if codes "s" == codes "s"
        then (if cut_title (trim_space (codes " hi ")) == []
            then none
            else some (cut_title (trim_space (codes " hi "))))
        else lookup (codes "s") []))
set_session_title_lem_example = set_session_title_lem (codes "s") (codes " hi ") (codes "s") []

list_sessions-IsListing_example :
    (ss : List SessionSummary) × (list_sessions table [] ≡ some ss) × IsListing table [] ss
list_sessions-IsListing_example = list_sessions-IsListing table []
