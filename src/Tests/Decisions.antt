-- ===== src/Tests/Decisions.antt =====
-- A payment over MCP, a Casdoor that answers, and one enabled policy set.
use casdoor_aiguard.Common.Dict.{Dict}
use casdoor_aiguard.Common.Int.{pos}
use casdoor_aiguard.Common.Text.{Str, ◌==◌, codes}
use casdoor_aiguard.Common.{
  ℕ, Bool, true, false, Option, none, some, List, [], ◌∷◌, ◌≡◌, ◌≢◌, refl, ◌↔◌, ◌⊎◌, ◌<◌, arith,
}
use casdoor_aiguard.Enforce.Cache.{IsCoherent}
use casdoor_aiguard.Enforce.State.{EnforceState, enforce_for_agent}
use casdoor_aiguard.Enforce.Verdict.{Decides, enforce_for_agent-Verdict}
use casdoor_aiguard.Enforce.{Casbin}
use casdoor_aiguard.Float.{float_thousand}
use casdoor_aiguard.Http.{method_post}
use casdoor_aiguard.Intent.{Intent}
use casdoor_aiguard.Json.{end}
use casdoor_aiguard.Pdp.Laws.{SaidYes, pdp_decide-fail_closed}
use casdoor_aiguard.Pdp.{Network, new_client, ok, decision_allow, pdp_decide}
use casdoor_aiguard.Policy.Laws.{Ruling, evaluate-eq_iff}
use casdoor_aiguard.Policy.{default_policy, evaluate, action_allow, action_deny, action_step_up}
use casdoor_aiguard.PolicyHub.Gate.{
  AgentPresence, MayEnable, gate_policy_set, gate_policy_set-none_iff, toggle_policy_set,
}
use casdoor_aiguard.PolicyHub.Toggle.{Outcome, toggle_policy_set-Outcome}
use casdoor_aiguard.PolicyHub.{PolicySet, HubFile, missing, parsed}
use casdoor_aiguard.Proxy.Decision.{Exchange, decide}
use casdoor_aiguard.Proxy.Laws.Effects.{
  Describes, Fate, IsAccounted, received, decide-Describes, serve_one_request-IsAccounted,
  serve_one_request-forwards,
}
use casdoor_aiguard.Proxy.Laws.Permits.{Permits, decide-allow_iff}
use casdoor_aiguard.Proxy.Serve.{Upstream, serve_one_request}
use casdoor_aiguard.Recognizers.{Recognizer, recognize_first}
use casdoor_aiguard.Settings.{Settings}

abbrev pub settings : Settings
settings = record {
  casdoor = record {
    endpoint = codes "https://door";
    client_id = codes "id";
    client_secret = codes "secret";
    organization = codes "built-in";
    application = codes "guard";
  };
  intercept = record {
    proxy_port = 8000;
    fail_closed_on_pdp_error = true;
    passthrough_unrecognized = false;
    step_up_default_action = codes "allow";
  };
  llm = record { providers = []; active = [] };
}

-- A Casdoor that grants a token of an hour and says yes.
abbrev network : Network
network = record {
  now = 100;
  enforce_path = codes "/api/enforce";
  request_token =
      λ cfg. ok (record { access_token = codes "t"; expires_in = pos 3600; error = [] });
  enforce = λ call. ok (record { status = codes "ok"; verdict = some true; msg = [] });
}

abbrev later : Network
later = record network { now = 200 }

abbrev pub payment : Intent
payment = record {
  category = codes "payment";
  action = codes "tools/call";
  tool_name = codes "process_payment";
  model = [];
  prompt = [];
  amount = float_thousand;
  currency = codes "USD";
  recipient = codes "bob";
  destination = codes "pay.example";
  raw = end;
}

abbrev pub host : Str
host = codes "pay.example"

abbrev pub exchange : Exchange
exchange = record {
  host = host;
  request = record {
    method = method_post;
    url = record { path = codes "/v1/payments"; raw_query = [] };
    content_type = codes "application/json";
    host = host;
    close = false;
  };
  body = codes "{}";
  source = record { pid = 7; process_name = codes "node"; agent = codes "openclaw" };
  uuid = codes "e1";
  now = 100;
}

abbrev pub recognizers : List Recognizer
recognizers = record { name = codes "mcp"; recognize = λ h r b. some payment } ∷ []

abbrev upstream : Upstream
upstream = record {
  dial = λ f. none;
  exchange = λ f. ok (record { status = 200; chunks = codes "o" ∷ codes "k" ∷ [] });
}

-- A Casbin that denies all, with one enforcer.
abbrev pub casbin : Casbin
casbin = record {
  Enforcer = Unit;
  compile = λ m p. some tt;
  enforce_ex = λ e s o a. some (false, s ∷ o ∷ a ∷ []);
}

abbrev set : PolicySet
set = record {
  name = codes "strict";
  display_name = codes "Strict";
  description = [];
  icon = [];
  author = [];
  strictness = [];
  agent = codes "OpenClaw";
  os = codes "Ubuntu";
  tags = [];
  model = codes "m";
  policy = codes "p, openclaw, .*, .*, deny";
  request = [];
}

abbrev pub hub : Str → HubFile
hub name = elim (name == codes "strict") [ true ↦ parsed set | false ↦ missing ]

abbrev presence : AgentPresence
presence = record {
  installed = (codes "OpenClaw", true) ∷ [];
  patched = (codes "OpenClaw", true) ∷ [];
}

abbrev pub state : EnforceState casbin
state = record { cache = []; enabled = (codes "strict", true) ∷ []; file = none }

state-IsCoherent : IsCoherent casbin []
state-IsCoherent name c e = unfold casdoor_aiguard.Common.Dict.lookup in cc e

evaluate-eq_iff_example :
    (evaluate default_policy payment host ≡ (action_step_up, codes "high-value-payment-step-up"))
    ↔ Ruling payment host default_policy (action_step_up, codes "high-value-payment-step-up")
evaluate-eq_iff_example =
    evaluate-eq_iff payment host default_policy (action_step_up, codes "high-value-payment-step-up")

pdp_decide-fail_closed_example :
    ((pdp_decide network settings payment (codes "openclaw") new_client).0.0 ≡ decision_allow)
    ↔ SaidYes network settings payment (codes "openclaw") new_client
pdp_decide-fail_closed_example =
    pdp_decide-fail_closed network settings payment (codes "openclaw") new_client refl

decide-allow_iff_example :
    (((decide recognizers network settings default_policy exchange new_client).0.action
        ≡ action_allow)
      ↔ Permits network settings default_policy exchange new_client
          (recognize_first recognizers host exchange.request exchange.body))
    × (((decide recognizers network settings default_policy exchange new_client).0.action
          ≡ action_allow)
        ⊎ ((decide recognizers network settings default_policy exchange new_client).0.action
            ≡ action_deny))
decide-allow_iff_example =
    decide-allow_iff recognizers network settings default_policy exchange new_client

decide-Describes_example :
    Describes exchange (decide recognizers network settings default_policy exchange new_client).0
decide-Describes_example =
    decide-Describes recognizers network settings default_policy exchange new_client

serve_one_request-IsAccounted_example :
    IsAccounted exchange
      (decide recognizers network settings default_policy exchange new_client).0
      (serve_one_request recognizers network settings default_policy upstream exchange
        (codes "1.2.3.4:443")
        true
        new_client).0
serve_one_request-IsAccounted_example =
    serve_one_request-IsAccounted recognizers network settings default_policy upstream exchange
      (codes "1.2.3.4:443") true new_client

serve_one_request-forwards_example :
    Fate
      (Permits network settings default_policy exchange new_client
        (recognize_first recognizers host exchange.request exchange.body))
      (received exchange (codes "1.2.3.4:443") true)
      (serve_one_request recognizers network settings default_policy upstream exchange
        (codes "1.2.3.4:443")
        true
        new_client).0
      none
serve_one_request-forwards_example =
    serve_one_request-forwards recognizers network settings default_policy upstream exchange
      (codes "1.2.3.4:443") true new_client

gate_policy_set-none_iff_example :
    (gate_policy_set (codes "linux") set presence ≡ none) ↔ MayEnable (codes "linux") set presence
gate_policy_set-none_iff_example = gate_policy_set-none_iff (codes "linux") set presence

toggle_policy_set-Outcome_example :
    Outcome casbin hub
      (codes "linux")
      presence
      (codes "strict")
      true
      state
      (toggle_policy_set casbin hub (codes "linux") presence none (codes "strict") true state)
toggle_policy_set-Outcome_example =
    toggle_policy_set-Outcome casbin hub (codes "linux") presence none (codes "strict") true state
      state-IsCoherent

enforce_for_agent-Verdict_example :
    Decides casbin hub
      (codes "openclaw")
      (codes "x#y")
      (codes "mcp.tool_call")
      state.enabled
      (enforce_for_agent casbin hub
        (codes "openclaw")
        (codes "x#y")
        (codes "mcp.tool_call")
        state).0
    × IsCoherent casbin
        (enforce_for_agent casbin hub
          (codes "openclaw")
          (codes "x#y")
          (codes "mcp.tool_call")
          state).1.cache
enforce_for_agent-Verdict_example =
    enforce_for_agent-Verdict casbin hub (codes "openclaw") (codes "x#y") (codes "mcp.tool_call")
      state state-IsCoherent
