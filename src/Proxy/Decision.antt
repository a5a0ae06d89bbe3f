-- ===== src/Proxy/Decision.antt =====
-- proxy/decision.go: `Engine.Decide`.
use casdoor_aiguard.Common.{ℕ, not, ◌&&◌, ◌||◌, Option, none, some, List, [], ◌++◌, if◌then◌else◌}
use casdoor_aiguard.Common.Text.{Str, ◌==◌, codes}
use casdoor_aiguard.Event.{Event, new_event, attach_request}
use casdoor_aiguard.Http.{Request}
use casdoor_aiguard.Intent.{Intent}
use casdoor_aiguard.Pdp.{Client, Network, pdp_decide, Decision, decision_allow}
use casdoor_aiguard.Policy.{
  Policy, Action, action_allow, action_deny, action_step_up, evaluate, is_recognizer_enabled,
}
use casdoor_aiguard.Recognizers.{Recognizer, recognize_first}
use casdoor_aiguard.Settings.{Settings}

-- `SourceMeta`
pub record SourceMeta : Type 0 where
  pub pid : ℕ
  pub process_name : Str
  pub agent : Str

-- What `Decide` returns: the action, the reason and the event that describes them.
pub record Ruling : Type 0 where
  pub action : Action
  pub reason : Str
  pub event : Event

-- One request as `Decide` sees it, with the id and time that its event will have.
pub record Exchange : Type 0 where
  pub host : Str
  pub request : Request
  pub body : Str
  pub source : SourceMeta
  pub uuid : Str
  pub now : ℕ

-- The local function `build`
unfoldable pub build : Exchange → Str → Option Intent → Action → Str → Ruling
unfolding new_event attach_request
build x recognizer_name intent action reason =
    let ev =
      new_event x.uuid x.now x.host x.source.pid x.source.process_name recognizer_name intent action
        reason in
    record {
      action = action;
      reason = reason;
      event = attach_request (record ev { agent = x.source.agent }) (some x.request) x.body;
    }

-- The action that a pending step-up defaults to: what the settings say, if it is allow or deny.
unfoldable pub step_up_stub : Settings → Action
unfolding ◌==◌
step_up_stub s =
    if not (s.intercept.step_up_default_action == action_allow)
      && not (s.intercept.step_up_default_action == action_deny)
    then action_deny
    else s.intercept.step_up_default_action

unfoldable pub step_up_reason : Settings → Str → Str
unfolding step_up_stub
step_up_reason s rule_reason =
    codes "step-up required (CIBA stubbed): " ++ (rule_reason ++ (codes " -> " ++ step_up_stub s))

-- The subject that is named to the PDP.
unfoldable pub source_of : SourceMeta → Str
unfolding ◌==◌
source_of m =
    if m.agent == []
    then if m.process_name == [] then codes "unknown-agent" else m.process_name
    else m.agent

unfoldable pub pdp_action : Decision → Action
pdp_action decision_allow = action_allow
pdp_action _ = action_deny

-- The branch that asks the PDP.
unfoldable pub by_pdp : Exchange → Str → Intent → (Decision × Str) × Client → Ruling × Client
unfolding pdp_action build
by_pdp x recognizer_name intent ((decision, reason), c) =
    (build x recognizer_name (some intent) (pdp_action decision) reason, c)

-- The `switch` on the policy's action; any action that it does not name goes to the PDP.
unfoldable pub by_action :
    Network → Settings → Exchange → Str → Intent → Action × Str → Client → Ruling × Client
unfolding by_pdp build step_up_stub step_up_reason source_of ◌==◌
by_action net s x recognizer_name intent (action, rule_reason) c =
    if action == action_allow || action == action_deny
    then (build x recognizer_name (some intent) action rule_reason, c)
    else if action == action_step_up
    then (build x recognizer_name (some intent) (step_up_stub s) (step_up_reason s rule_reason), c)
    else by_pdp x recognizer_name intent (pdp_decide net s intent (source_of x.source) c)

unfoldable pub on_recognized :
    Network → Settings → Policy → Exchange → Option (Intent × Str) → Client → Ruling × Client
unfolding by_action build evaluate is_recognizer_enabled
on_recognized net s p x none c = (
  build x [] none (if not s.intercept.passthrough_unrecognized then action_deny else action_allow)
      (codes "unrecognized-traffic"),
  c,
)
on_recognized net s p x (some (intent, name)) c =
    if not (is_recognizer_enabled p name)
    then (build x name (some intent) action_allow (codes "recognizer-disabled"), c)
    else by_action net s x name intent (evaluate p intent x.host) c

-- `func (e *Engine) Decide`; the state is the PDP client's.
unfoldable pub decide :
    List Recognizer → Network → Settings → Policy → Exchange → Client → Ruling × Client
unfolding on_recognized recognize_first
decide registry net s p x c =
    on_recognized net s p x (recognize_first registry x.host x.request x.body) c
