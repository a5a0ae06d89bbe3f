-- ===== src/Settings.antt =====
-- object/settings.go: the live settings, the saved LLM provider profiles, and which one is active
-- on each agent installation.
pub mod Active
pub mod Providers
pub mod Update
use casdoor_aiguard.Common.{
  ℕ, Bool, true, false, not, ◌&&◌, Option, none, some, List, [], ◌∷◌, ◌++◌, if◌then◌else◌,
}
use casdoor_aiguard.Common.Text.{Str, ◌==◌}

pub record CasdoorSettings : Type 0 where
  pub endpoint : Str
  pub client_id : Str
  pub client_secret : Str
  pub organization : Str
  pub application : Str

pub record InterceptSettings : Type 0 where
  pub proxy_port : ℕ
  pub fail_closed_on_pdp_error : Bool
  pub passthrough_unrecognized : Bool
  pub step_up_default_action : Str

pub record LlmProvider : Type 0 where
  pub id : Str
  pub name : Str
  pub base_url : Str
  pub api_key : Str
  pub model : Str
  pub small_fast_model : Str

pub record LlmActiveProvider : Type 0 where
  pub agent_id : Str
  pub path : Str
  pub owner : Str
  pub provider_id : Str

pub record LlmSettings : Type 0 where
  pub providers : List LlmProvider
  pub active : List LlmActiveProvider

pub record Settings : Type 0 where
  pub casdoor : CasdoorSettings
  pub intercept : InterceptSettings
  pub llm : LlmSettings

-- `llmProviderWire`, the JSON shape of a provider: it says whether a key is set.
pub record LlmProviderWire : Type 0 where
  pub id : Str
  pub name : Str
  pub base_url : Str
  pub api_key : Str
  pub has_api_key : Bool
  pub model : Str
  pub small_fast_model : Str

-- `MarshalJSON`: the value that is handed to `json.Marshal`
unfoldable pub to_wire : LlmProvider → LlmProviderWire
unfolding ◌==◌
to_wire p = record {
  id = p.id;
  name = p.name;
  base_url = p.base_url;
  api_key = [];
  has_api_key = not (p.api_key == []);
  model = p.model;
  small_fast_model = p.small_fast_model;
}

-- `UnmarshalJSON`, behind `json.Unmarshal`
unfoldable pub from_wire : LlmProviderWire → LlmProvider
from_wire w = record {
  id = w.id;
  name = w.name;
  base_url = w.base_url;
  api_key = w.api_key;
  model = w.model;
  small_fast_model = w.small_fast_model;
}

-- `ProviderById`
unfoldable pub provider_by_id : Str → List LlmProvider → Option LlmProvider
unfolding ◌==◌
provider_by_id id [] = none
provider_by_id id (p ∷ ps) = if p.id == id then some p else provider_by_id id ps

-- One round of the loop of `PreserveApiKeys`.
unfoldable pub preserve_api_key : List LlmProvider → LlmProvider → LlmProvider
unfolding provider_by_id
preserve_api_key previous p =
    if not (p.api_key == []) then p else elim (provider_by_id p.id previous) [
      | some old ↦ record p { api_key = old.api_key }
      | none ↦ p
    ]

unfoldable pub preserve_all : List LlmProvider → List LlmProvider → List LlmProvider
unfolding preserve_api_key
preserve_all previous [] = []
preserve_all previous (p ∷ ps) = preserve_api_key previous p ∷ preserve_all previous ps

-- `PreserveApiKeys`
unfoldable pub preserve_api_keys : LlmSettings → LlmSettings → LlmSettings
unfolding preserve_all
preserve_api_keys s previous = record s { providers = preserve_all previous.providers s.providers }

-- The error of `ValidateProviderRemoval`: the provider's name, and the agent switched to it.
pub record CannotDelete : Type 0 where
  pub name : Str
  pub agent_id : Str

unfoldable pub validate_active :
    List LlmProvider → List LlmProvider → List LlmActiveProvider → Option CannotDelete
unfolding provider_by_id
validate_active current next [] = none
validate_active current next (a ∷ as') =
    let rest = validate_active current next as' in
    if a.provider_id == [] then rest else elim (provider_by_id a.provider_id next) [
      | some _ ↦ rest
      | none ↦ elim (provider_by_id a.provider_id current) [
        | some p ↦ some (record { name = p.name; agent_id = a.agent_id })
        | none ↦ some (record { name = a.provider_id; agent_id = a.agent_id })
      ]
    ]

-- `ValidateProviderRemoval`; `none` is a nil error
unfoldable pub validate_provider_removal : LlmSettings → LlmSettings → Option CannotDelete
unfolding validate_active
validate_provider_removal s next = validate_active s.providers next.providers s.active

-- The test by which the loops find an installation's entry.
unfoldable pub is_installation : Str → Str → Str → LlmActiveProvider → Bool
unfolding ◌==◌
is_installation agent_id path owner a =
    a.agent_id == agent_id && (a.path == path && a.owner == owner)

unfoldable pub active_in : Str → Str → Str → List LlmActiveProvider → Str
unfolding is_installation
active_in agent_id path owner [] = []
active_in agent_id path owner (a ∷ as') =
    if is_installation agent_id path owner a
    then a.provider_id
    else active_in agent_id path owner as'

-- `ActiveProviderId`
unfoldable pub active_provider_id : LlmSettings → Str → Str → Str → Str
unfolding active_in
active_provider_id s agent_id path owner = active_in agent_id path owner s.active

-- The loop of `SetActive`, and the append behind it.
unfoldable pub set_in : Str → Str → Str → Str → List LlmActiveProvider → List LlmActiveProvider
unfolding is_installation
set_in agent_id path owner provider_id [] =
    if not (provider_id == [])
    then record { agent_id = agent_id; path = path; owner = owner; provider_id = provider_id } ∷ []
    else []
set_in agent_id path owner provider_id (a ∷ as') =
    if is_installation agent_id path owner a
    then if provider_id == [] then as' else record a { provider_id = provider_id } ∷ as'
    else a ∷ set_in agent_id path owner provider_id as'

-- `SetActive`
unfoldable pub set_active : LlmSettings → Str → Str → Str → Str → LlmSettings
unfolding set_in
set_active s agent_id path owner provider_id = record s {
  active = set_in agent_id path owner provider_id s.active;
}
