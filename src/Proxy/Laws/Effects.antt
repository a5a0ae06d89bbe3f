-- ===== src/Proxy/Laws/Effects.antt =====
-- proxy/http_handler.go, `serveOneRequest`: what is done with a decided request, and its record.
use casdoor_aiguard.Common.{
  ℕ, Bool, not, ◌||◌, Option, none, some, List, [], ◌∷◌, ◌≡◌, ◌≢◌, refl, ◌∙◌, sym, inl, inr,
  Bool-cases, if◌then◌else◌,
}
use casdoor_aiguard.Common.Text.{Str, ◌==◌, codes}
use casdoor_aiguard.Event.{Event, attach_response, truncate_body}
use casdoor_aiguard.Intent.{Intent}
use casdoor_aiguard.Pdp.{Client, Network, Result, ok, err, Decision, pdp_decide}
use casdoor_aiguard.Policy.{
  Policy, Action, action_allow, action_deny, action_step_up, evaluate, is_recognizer_enabled,
}
use casdoor_aiguard.Proxy.Decision.{
  Exchange, Ruling, build, source_of, by_pdp, by_action, on_recognized, decide, pdp_action,
  step_up_stub, step_up_reason,
}
use casdoor_aiguard.Proxy.Laws.Permits.{Permits, decide-allow_iff}
use casdoor_aiguard.Proxy.Serve.{
  Forwarded, Response, Effect, Upstream, dialled, forward_request, forward, answer, relay,
  record_event, finish, serve_ruling, serve_one_request,
}
use casdoor_aiguard.Recognizers.{Recognizer, recognize_first}
use casdoor_aiguard.Settings.{Settings}

-- The event of a ruling describes the exchange and the ruling itself.
pub record Describes (x : Exchange) (r : Ruling) : Type 0 where
  pub decision : r.event.decision ≡ r.action
  pub reason : r.event.reason ≡ r.reason
  pub destination : r.event.destination ≡ x.host
  pub agent : r.event.agent ≡ x.source.agent
  pub process : r.event.source_process ≡ x.source.process_name
  pub method : r.event.method ≡ x.request.method
  pub path : r.event.path ≡ x.request.url.path
  pub query : r.event.query ≡ x.request.url.raw_query
  pub body : r.event.request_body ≡ truncate_body x.body

build-Describes :
    (x : Exchange) (name : Str) (intent : Option Intent) (action : Action) (reason : Str)
    → Describes x (build x name intent action reason)
unfolding build
build-Describes x name intent action reason = record {
  decision = refl;
  reason = refl;
  destination = refl;
  agent = refl;
  process = refl;
  method = refl;
  path = refl;
  query = refl;
  body = refl;
}

by_pdp-Describes :
    (x : Exchange) (name : Str) (intent : Intent) (d : (Decision × Str) × Client)
    → Describes x (by_pdp x name intent d).0
unfolding by_pdp
by_pdp-Describes x name intent d = build-Describes x name (some intent) (pdp_action d.0.0) d.0.1

by_action-Describes :
    (net : Network) (s : Settings) (x : Exchange) (name : Str) (intent : Intent)
    (out : Action × Str) (c : Client)
    → Describes x (by_action net s x name intent out c).0
unfolding by_action
by_action-Describes net s x name intent out c =
    elim (Bool-cases (out.0 == action_allow || out.0 == action_deny)) [
      | inl e ↦ rw e (build-Describes x name (some intent) out.0 out.1)
      | inr e ↦ elim (Bool-cases (out.0 == action_step_up)) [
        | inl q ↦
            rw (e, q)
              (build-Describes x name (some intent) (step_up_stub s) (step_up_reason s out.1))
        | inr q ↦
            rw (e, q)
              (by_pdp-Describes x name intent (pdp_decide net s intent (source_of x.source) c))
      ]
    ]

on_recognized-Describes :
    (net : Network) (s : Settings) (p : Policy) (x : Exchange) (o : Option (Intent × Str))
    (c : Client)
    → Describes x (on_recognized net s p x o c).0
unfolding on_recognized
on_recognized-Describes net s p x none c =
    build-Describes x [] none
      (if not s.intercept.passthrough_unrecognized then action_deny else action_allow)
      (codes "unrecognized-traffic")
on_recognized-Describes net s p x (some (intent, name)) c =
    elim (Bool-cases (is_recognizer_enabled p name)) [
      | inl on ↦ rw on (by_action-Describes net s x name intent (evaluate p intent x.host) c)
      | inr off ↦
          rw off (build-Describes x name (some intent) action_allow (codes "recognizer-disabled"))
    ]

-- The event that `Decide` returns describes the request and the decision that was made on it: its
-- decision and reason are the ones returned, and its body is the request's, cut to the cap.
pub decide-Describes :
    (registry : List Recognizer) (net : Network) (s : Settings) (p : Policy) (x : Exchange)
    (c : Client)
    → Describes x (decide registry net s p x c).0
unfolding decide
decide-Describes registry net s p x c =
    on_recognized-Describes net s p x (recognize_first registry x.host x.request x.body) c

-- What is sent on, what is written to the log, and the statuses that the client sees.
abbrev pub forwards : List Effect → List Forwarded
forwards [] = []
forwards (forward f ∷ es) = f ∷ forwards es
forwards (answer a ∷ es) = forwards es
forwards (relay r ∷ es) = forwards es
forwards (record_event e ∷ es) = forwards es

abbrev pub recorded : List Effect → List Event
recorded [] = []
recorded (forward f ∷ es) = recorded es
recorded (answer a ∷ es) = recorded es
recorded (relay r ∷ es) = recorded es
recorded (record_event e ∷ es) = e ∷ recorded es

abbrev pub statuses : List Effect → List ℕ
statuses [] = []
statuses (forward f ∷ es) = statuses es
statuses (answer a ∷ es) = a.status ∷ statuses es
statuses (relay r ∷ es) = r.status ∷ statuses es
statuses (record_event e ∷ es) = statuses es

-- The request as it came in, bound for the address that the connection was for.
abbrev pub received : Exchange → Str → Bool → Forwarded
received x dial_addr use_tls = record {
  host = x.host;
  dial_addr = dial_addr;
  use_tls = use_tls;
  request = x.request;
  body = x.body;
}

-- One event is recorded and one response is sent, and they agree.
pub record IsAccounted (x : Exchange) (r : Ruling) (es : List Effect) : Type 0 where
  pub event : Event
  pub once : recorded es ≡ event ∷ []
  pub status : statuses es ≡ event.response_status ∷ []
  pub decision : event.decision ≡ r.action
  pub reason : event.reason ≡ r.reason
  pub destination : event.destination ≡ x.host
  pub body : event.request_body ≡ truncate_body x.body

module _ (upstream : Upstream) (x : Exchange) (dial_addr : Str) (use_tls : Bool) where
  -- Whatever was sent, if it is of no account here.
  finish-IsAccounted :
      (f : Forwarded) (r : Ruling) (o : Result Response)
      → Describes x r
      → IsAccounted x r (finish r.event (forward f ∷ [], o))
  unfolding finish attach_response
  finish-IsAccounted f r (err e) d = record {
    event = attach_response r.event 502 e;
    once = refl;
    status = refl;
    decision = d.decision;
    reason = d.reason;
    destination = d.destination;
    body = d.body;
  }
  finish-IsAccounted f r (ok q) d = record {
    event = attach_response r.event q.status _;
    once = refl;
    status = refl;
    decision = d.decision;
    reason = d.reason;
    destination = d.destination;
    body = d.body;
  }

  dialled-IsAccounted :
      (f : Forwarded) (r : Ruling) (o : Option Str)
      → Describes x r
      → IsAccounted x r (finish r.event (dialled upstream f o))
  unfolding dialled finish attach_response
  dialled-IsAccounted f r none d = finish-IsAccounted f r (upstream.exchange f) d
  dialled-IsAccounted f r (some e) d = record {
    event = attach_response r.event 502 e;
    once = refl;
    status = refl;
    decision = d.decision;
    reason = d.reason;
    destination = d.destination;
    body = d.body;
  }

  serve_ruling-IsAccounted :
      (r : Ruling) → Describes x r → IsAccounted x r (serve_ruling upstream x dial_addr use_tls r)
  unfolding serve_ruling attach_response forward_request
  serve_ruling-IsAccounted r d = elim (Bool-cases (r.action == action_deny)) [
    | inl e ↦ rw e (record {
      event = attach_response r.event 403 r.reason;
      once = refl;
      status = refl;
      decision = d.decision;
      reason = d.reason;
      destination = d.destination;
      body = d.body;
    })
    | inr e ↦ rw e (dialled-IsAccounted _ r (upstream.dial _) d)
  ]

  -- What is sent of a request, given the error of the dial.
  abbrev pub sent : Option Str → List Forwarded
  sent none = received x dial_addr use_tls ∷ []
  sent (some e) = []

  finish-forwards :
      (f : Forwarded) (ev : Event) (o : Result Response)
      → forwards (finish ev (forward f ∷ [], o)) ≡ f ∷ []
  unfolding finish
  finish-forwards f ev (err e) = refl
  finish-forwards f ev (ok r) = refl

  dialled-forwards :
      (ev : Event) (o : Option Str)
      → forwards (finish ev (dialled upstream (received x dial_addr use_tls) o)) ≡ sent o
  unfolding finish dialled
  dialled-forwards ev none =
      finish-forwards (received x dial_addr use_tls) ev
        (upstream.exchange (received x dial_addr use_tls))
  dialled-forwards ev (some e) = refl

  serve_ruling-forwards :
      (r : Ruling)
      → forwards (serve_ruling upstream x dial_addr use_tls r) ≡ (
          if r.action == action_deny
          then []
          else sent (upstream.dial (received x dial_addr use_tls)))
  unfolding serve_ruling forward_request
  serve_ruling-forwards r = elim (Bool-cases (r.action == action_deny)) [
    | inl e ↦ rw e
    | inr e ↦ rw e (dialled-forwards r.event (upstream.dial (received x dial_addr use_tls)))
  ]

-- Whatever happens to a request, exactly one event is recorded for it and exactly one response
-- sent to the client; the event carries the response's status, the decision and reason that
-- `Decide` gave, the host and the request's body up to the cap.
pub serve_one_request-IsAccounted :
    (registry : List Recognizer) (net : Network) (s : Settings) (p : Policy) (upstream : Upstream)
    (x : Exchange) (dial_addr : Str) (use_tls : Bool) (c : Client)
    → IsAccounted x
        (decide registry net s p x c).0
        (serve_one_request registry net s p upstream x dial_addr use_tls c).0
unfolding serve_one_request
serve_one_request-IsAccounted registry net s p upstream x dial_addr use_tls c =
    serve_ruling-IsAccounted upstream x dial_addr use_tls (decide registry net s p x c).0
      (decide-Describes registry net s p x c)

forwards_of_action :
    (upstream : Upstream) (x : Exchange) (dial_addr : Str) (use_tls : Bool) (r : Ruling)
    → (r.action ≡ action_allow
        → forwards (serve_ruling upstream x dial_addr use_tls r)
          ≡ sent upstream x dial_addr use_tls (upstream.dial (received x dial_addr use_tls)))
      × (r.action ≡ action_deny → forwards (serve_ruling upstream x dial_addr use_tls r) ≡ [])
forwards_of_action upstream x dial_addr use_tls r = (
  λ e. serve_ruling-forwards upstream x dial_addr use_tls r ∙ rw e (unfold ◌==◌ in refl),
  λ e. serve_ruling-forwards upstream x dial_addr use_tls r ∙ rw e (unfold ◌==◌ in refl),
)

-- What becomes of a request: sent once, as it was received; not sent as the dial failed; or refused.
pub data Fate (permitted : Type 0) (f : Forwarded) (es : List Effect) : Option Str → Type 0 where
  passed_on : permitted → forwards es ≡ f ∷ [] → Fate permitted f es none
  unreachable : {e : Str} → permitted → forwards es ≡ [] → Fate permitted f es (some e)
  refused : {dial : Option Str} → ¬ permitted → forwards es ≡ [] → Fate permitted f es dial

permitted-Fate :
    (permitted : Type 0) (upstream : Upstream) (x : Exchange) (dial_addr : Str) (use_tls : Bool)
    (es : List Effect) (dial : Option Str)
    → permitted
    → forwards es ≡ sent upstream x dial_addr use_tls dial
    → Fate permitted (received x dial_addr use_tls) es dial
permitted-Fate permitted upstream x dial_addr use_tls es none p q = passed_on p q
permitted-Fate permitted upstream x dial_addr use_tls es (some e) p q = unreachable p q

-- A request that the pipeline permits is written once, as it was inspected, to a connection to the
-- address that was dialled for it, if that dial succeeds, and nothing is written if it fails; a
-- request that the pipeline does not permit is never written upstream.
pub serve_one_request-forwards :
    (registry : List Recognizer) (net : Network) (s : Settings) (p : Policy) (upstream : Upstream)
    (x : Exchange) (dial_addr : Str) (use_tls : Bool) (c : Client)
    → Fate
        (Permits net s p x c (recognize_first registry x.host x.request x.body))
        (received x dial_addr use_tls)
        (serve_one_request registry net s p upstream x dial_addr use_tls c).0
        (upstream.dial (received x dial_addr use_tls))
unfolding serve_one_request
serve_one_request-forwards registry net s p upstream x dial_addr use_tls c =
    let (permits, two) = decide-allow_iff registry net s p x c in
    let f = forwards_of_action upstream x dial_addr use_tls (decide registry net s p x c).0 in
    elim two [
      | inl a ↦
          permitted-Fate _ upstream x dial_addr use_tls _
            (upstream.dial (received x dial_addr use_tls)) (permits.0 a) (f.0 a)
      | inr d ↦ refused (λ h. allow≢deny (sym (permits.1 h) ∙ d)) (f.1 d)
    ]
  where
    allow≢deny : action_allow ≢ action_deny
    allow≢deny e = cc
