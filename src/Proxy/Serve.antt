-- ===== src/Proxy/Serve.antt =====
-- proxy/http_handler.go: `serveOneRequest`, as the list of what it does, in order. The upstream is
-- given by what its dial and its exchange come to; a response streams in chunks.
use casdoor_aiguard.Common.{ℕ, Bool, Option, none, some, List, [], ◌∷◌, ◌++◌, if◌then◌else◌}
use casdoor_aiguard.Common.Text.{Str, ◌==◌, codes}
use casdoor_aiguard.Event.Capture.{capture_string, capture_all, empty_capture}
use casdoor_aiguard.Event.{Event, attach_response, max_capture_bytes}
use casdoor_aiguard.Http.{Request}
use casdoor_aiguard.Pdp.{Client, Network, Result, ok, err}
use casdoor_aiguard.Policy.{Policy, action_deny}
use casdoor_aiguard.Proxy.Decision.{Ruling, Exchange, decide}
use casdoor_aiguard.Recognizers.{Recognizer}
use casdoor_aiguard.Settings.{Settings}

-- The request that is sent on: where to, and with which body. The scheme and the host that
-- `forwardRequest` completes its URL with are those of `use_tls` and `host`.
pub record Forwarded : Type 0 where
  pub host : Str
  pub dial_addr : Str
  pub use_tls : Bool
  pub request : Request
  pub body : Str

pub record Response : Type 0 where
  pub status : ℕ
  pub chunks : List Str

-- A JSON answer of aiguard's own: its error, and the field that explains it.
pub record OwnAnswer : Type 0 where
  pub status : ℕ
  pub error : Str
  pub detail : Str

pub data Effect : Type 0 where
  -- Written to an open connection to the upstream, if perhaps not to its end.
  forward : Forwarded → Effect
  answer : OwnAnswer → Effect
  relay : Response → Effect
  record_event : Event → Effect

abbrev pub status_forbidden : ℕ
status_forbidden = 403

abbrev pub status_bad_gateway : ℕ
status_bad_gateway = 502

-- The upstream: whether a dial fails, and what becomes of a request that is written to the connection.
-- An error of the exchange may be one of the write, midway, or one of the read of the response.
pub record Upstream : Type 0 where
  pub dial : Forwarded → Option Str
  pub exchange : Forwarded → Result Response

-- `forwardRequest` behind the dial, given its error
unfoldable pub dialled : Upstream → Forwarded → Option Str → List Effect × Result Response
dialled u f (some e) = ([], err e)
dialled u f none = (forward f ∷ [], u.exchange f)

-- `forwardRequest`
unfoldable pub forward_request : Upstream → Forwarded → List Effect × Result Response
unfolding dialled
forward_request u f = dialled u f (u.dial f)

-- What follows `forwardRequest`.
unfoldable pub finish : Event → List Effect × Result Response → List Effect
unfolding attach_response capture_string capture_all
finish ev (sent, err e) =
    sent
    ++ answer
        (record { status = status_bad_gateway; error = codes "upstream_unreachable"; detail = e })
      ∷ record_event (attach_response ev status_bad_gateway e)
      ∷ []
finish ev (sent, ok r) =
    sent
    ++ relay r
      ∷ record_event (
          attach_response ev r.status
            (capture_string (capture_all (empty_capture max_capture_bytes) r.chunks)))
      ∷ []

unfoldable pub serve_ruling : Upstream → Exchange → Str → Bool → Ruling → List Effect
unfolding finish attach_response forward_request ◌==◌
serve_ruling upstream x dial_addr use_tls r =
    let f : Forwarded = record {
      host = x.host;
      dial_addr = dial_addr;
      use_tls = use_tls;
      request = x.request;
      body = x.body;
    } in
    if r.action == action_deny
    then answer (record {
      status = status_forbidden;
      error = codes "blocked_by_aiguard";
      detail = r.reason;
    })
      ∷ record_event (attach_response r.event status_forbidden r.reason)
      ∷ []
    else finish r.event (forward_request upstream f)

-- `serveOneRequest`
unfoldable pub serve_one_request :
    List Recognizer
    → Network
    → Settings
    → Policy
    → Upstream
    → Exchange
    → Str
    → Bool
    → Client
    → List Effect × Client
unfolding serve_ruling decide
serve_one_request registry net s p upstream x dial_addr use_tls c =
    let (r, c') = decide registry net s p x c in (serve_ruling upstream x dial_addr use_tls r, c')
