-- ===== src/Event.antt =====
-- object/event.go: one intercepted request, with the decision on it and the exchange.
pub mod Capture
use casdoor_aiguard.Common.{
  ℕ, ◌*◌, Option, none, some, List, [], ◌∷◌, ◌++◌, ltb, length, take, if◌then◌else◌,
}
use casdoor_aiguard.Common.Text.{Str, codes}
use casdoor_aiguard.Http.{Request, Url}
use casdoor_aiguard.Intent.{Intent}

abbrev pub max_capture_bytes : ℕ
max_capture_bytes = 256 * 1024

pub record Event : Type 0 where
  pub id : Str
  pub timestamp : ℕ
  pub source_pid : ℕ
  pub source_process : Str
  pub agent : Str
  pub destination : Str
  pub recognizer : Str
  pub intent : Option Intent
  pub decision : Str
  pub reason : Str
  pub method : Str
  pub path : Str
  pub query : Str
  pub request_body : Str
  pub response_status : ℕ
  pub response_body : Str

-- `uuid.NewString()` and `time.Now()` are given.
unfoldable pub new_event : Str → ℕ → Str → ℕ → Str → Str → Option Intent → Str → Str → Event
new_event uuid now destination source_pid source_process recognizer_name intent decision reason =
    record {
      id = uuid;
      timestamp = now;
      source_pid = source_pid;
      source_process = source_process;
      agent = [];
      destination = destination;
      recognizer = recognizer_name;
      intent = intent;
      decision = decision;
      reason = reason;
      method = [];
      path = [];
      query = [];
      request_body = [];
      response_status = 0;
      response_body = [];
    }

abbrev pub truncated_mark : Str
truncated_mark = codes "\n...[truncated]"

-- The cap of `truncateBody`, at any limit.
unfoldable pub truncate_at : ℕ → Str → Str
truncate_at limit b = if ltb limit (length b) then take limit b ++ truncated_mark else b

-- `truncateBody`
unfoldable pub truncate_body : Str → Str
truncate_body b = truncate_at max_capture_bytes b

-- `AttachRequest`; `none` is a nil request
unfoldable pub attach_request : Event → Option Request → Str → Event
attach_request e none body = record e { request_body = truncate_body body }
attach_request e (some req) body = record e {
  method = req.method;
  path = req.url.path;
  query = req.url.raw_query;
  request_body = truncate_body body;
}

-- `AttachResponse`
unfoldable pub attach_response : Event → ℕ → Str → Event
attach_response e status body = record e { response_status = status; response_body = body }
