-- ===== src/Record.antt =====
-- object/record.go: one behaviour record reported by an agent, and how it is completed and capped.
pub mod Store
pub mod Laws
pub mod Sessions
pub mod Corrections
use casdoor_aiguard.Common.{
  ℕ, ◌*◌, Bool, true, false, not, ◌&&◌, Option, none, some, List, [], ◌∷◌, ◌++◌, ltb, length, take,
  if◌then◌else◌,
}
use casdoor_aiguard.Common.Text.{Str, ◌==◌, codes}

abbrev pub max_record_object_bytes : ℕ
max_record_object_bytes = 64 * 1024

abbrev pub max_record_title_bytes : ℕ
max_record_title_bytes = 512

pub record Record : Type 0 where
  pub id : Str
  pub owner : Str
  pub name : Str
  pub created_time : Str
  pub agent : Str
  pub agent_path : Str
  pub client_ip : Str
  pub event_type : Str
  pub action : Str
  pub outcome : Str
  pub session_key : Str
  pub user : Str
  pub channel : Str
  pub title : Str
  pub prompt_id : Str
  pub tool_use_id : Str
  pub tool_name : Str
  pub mcp_server : Str
  pub mcp_tool : Str
  pub model : Str
  pub duration_ms : ℕ
  pub payload : Str
  pub detail : Str
  pub is_triggered : Bool
  pub resource : Str
  pub intent : Str
  pub policy_set : Str
  pub is_allowed : Bool
  pub reason : Str
  pub feedback : Str
  pub feedback_by : Str
  pub feedback_time : Str
  pub correctable : Bool

abbrev pub feedback_none : Str
feedback_none = []

abbrev pub feedback_allow : Str
feedback_allow = codes "allow"

abbrev pub feedback_deny : Str
feedback_deny = codes "deny"

-- `IsCorrectable`
unfoldable pub is_correctable : Record → Bool
unfolding ◌==◌
is_correctable r = not (r.resource == []) && not (r.intent == [])

-- `len(s) > limit` then `s[:limit] + mark`
unfoldable pub cap : ℕ → Str → Str → Str
cap limit mark s = if ltb limit (length s) then take limit s ++ mark else s

abbrev pub or_default : Str → Str → Str
or_default s d = if s == [] then d else s

abbrev pub object_mark : Str
object_mark = codes "\n...[truncated]"

abbrev pub title_mark : Str
title_mark = codes "..."

-- `normalize`, with the id and the time that it would assign. `payload` is the field Object.
unfoldable pub normalize : Str → Str → Record → Record
unfolding ◌==◌
normalize uuid now r =
    let id = or_default r.id uuid in
    record r {
      id = id;
      name = or_default r.name id;
      owner = or_default r.owner r.agent;
      created_time = or_default r.created_time now;
      is_allowed = if not r.is_triggered then true else r.is_allowed;
      correctable = is_correctable r;
      payload = cap max_record_object_bytes object_mark r.payload;
      title = cap max_record_title_bytes title_mark r.title;
    }
