-- ===== src/Policy.antt =====
-- object/policy.go: the local policy file's rules, and how they rule on an intent.
pub mod Laws
use casdoor_aiguard.Common.{Bool, true, false, not, ◌&&◌, List, [], ◌∷◌, if◌then◌else◌, is_nil}
use casdoor_aiguard.Common.Text.{Str, ◌==◌, contains, codes}
use casdoor_aiguard.Float.{Float64, float_lt, float_zero, float_thousand}
use casdoor_aiguard.Intent.{Intent}

-- `type Action string`: a policy file may hold any text here.
abbrev pub Action : Type 0
Action = Str

abbrev pub action_allow : Action
action_allow = codes "allow"

abbrev pub action_deny : Action
action_deny = codes "deny"

abbrev pub action_step_up : Action
action_step_up = codes "step-up"

abbrev pub action_pdp : Action
action_pdp = codes "pdp"

pub record Rule : Type 0 where
  pub id : Str
  pub category : Str
  pub tool_name : Str
  pub min_amount : Float64
  pub destinations : List Str
  pub action : Action

pub record Policy : Type 0 where
  pub enabled_recognizers : List Str
  pub destination_allowlist : List Str
  pub rules : List Rule
  pub default_action : Action

abbrev pub default_policy : Policy
default_policy = record {
  enabled_recognizers = codes "mcp" ∷ codes "llm" ∷ codes "payment-example" ∷ [];
  destination_allowlist = [];
  rules =
      record {
        id = codes "high-value-payment-step-up";
        category = codes "payment";
        tool_name = [];
        min_amount = float_thousand;
        destinations = [];
        action = action_step_up;
      }
      ∷ record {
        id = codes "payment-needs-pdp";
        category = codes "payment";
        tool_name = [];
        min_amount = float_zero;
        destinations = [];
        action = action_pdp;
      }
      ∷ record {
        id = codes "llm-allow-and-log";
        category = codes "llm.chat";
        tool_name = [];
        min_amount = float_zero;
        destinations = [];
        action = action_allow;
      }
      ∷ [];
  default_action = action_pdp;
}

-- `func (r *Rule) matches`, one early return after another
unfoldable pub matches : Rule → Intent → Str → Bool
unfolding ◌==◌ contains float_lt
matches r intent host =
    if not (r.category == [])
      && not (r.category == codes "*")
      && not (r.category == intent.category)
    then false
    else if not (r.tool_name == []) && not (r.tool_name == intent.tool_name)
    then false
    else if float_lt float_zero r.min_amount && float_lt intent.amount r.min_amount
    then false
    else if not (is_nil r.destinations) && not (contains r.destinations host)
    then false
    else true

-- The loop of `Evaluate` over the rules, with what follows the loop.
unfoldable pub first_match : List Rule → Intent → Str → Action × Str → Action × Str
unfolding matches
first_match [] intent host otherwise = otherwise
first_match (r ∷ rs) intent host otherwise =
    if matches r intent host then (r.action, r.id) else first_match rs intent host otherwise

-- `func (p *Policy) Evaluate`
unfoldable pub evaluate : Policy → Intent → Str → Action × Str
unfolding first_match contains ◌==◌
evaluate p intent host =
    if contains p.destination_allowlist host
    then (action_allow, codes "destination-allowlist")
    else first_match p.rules intent host
        (if p.default_action == [] then action_pdp else p.default_action, codes "default")

-- `func (p *Policy) IsRecognizerEnabled`
unfoldable pub is_recognizer_enabled : Policy → Str → Bool
unfolding contains
is_recognizer_enabled p name =
    if is_nil p.enabled_recognizers then true else contains p.enabled_recognizers name
