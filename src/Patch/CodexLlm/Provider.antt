-- ===== src/Patch/CodexLlm/Provider.antt =====
-- patch/codex_llm.go, `ApplyProvider` and `ClearProvider`: what a switch makes of the two files.
use casdoor_aiguard.Common.Dict.{Dict, lookup}
use casdoor_aiguard.Common.Text.{Str, ◌==◌, codes, is_empty}
use casdoor_aiguard.Common.{Bool, true, false, ◌||◌, Option, none, some, [], ◌∷◌, if◌then◌else◌}
use casdoor_aiguard.Json.{Fields, Json, delete_field, get_field, set_field, string}
use casdoor_aiguard.Patch.CodexToml.Edit.{Edit, codex_provider_id}
use casdoor_aiguard.Patch.CodexLlm.{
  Calls, Codecs, Home, LlmProvider, api_key_field, auth_mode_field, auth_mode_api_key,
  auth_mode_chatgpt, io, no_base_url, no_model,
}
use casdoor_aiguard.Patch.CodexLlm.Update.{Mutation, Outcome, update_codex_llm_config}

unfoldable pub set_auth : LlmProvider → Fields → Fields
unfolding set_field
set_auth p auth =
    set_field api_key_field (string p.api_key)
      (set_field auth_mode_field (string auth_mode_api_key) auth)

abbrev text_of : Option Json → Str
text_of (some (string s)) = s
text_of _ = []

module _ {V : Type 0} (k : Codecs V) where
  -- The mutation of `ApplyProvider`
  unfoldable pub provider_edit : LlmProvider → Edit
  provider_edit p = record {
    root =
        record { key = codes "model_provider"; value = k.quote codex_provider_id }
        ∷ record { key = codes "model"; value = k.quote p.model }
        ∷ [];
    provider =
        record { key = codes "name"; value = k.quote (codes "AIGuard") }
        ∷ record { key = codes "base_url"; value = k.quote p.base_url }
        ∷ record { key = codes "wire_api"; value = k.quote (codes "responses") }
        ∷ record { key = codes "requires_openai_auth"; value = codes "true" }
        ∷ [];
    drop_provider_table = false;
  }

  abbrev toml_text : Option V → Str
  toml_text none = []
  toml_text (some v) = elim (k.as_string v) [ none ↦ [] | some s ↦ s ]

  abbrev has_provider : Option V → Bool
  has_provider none = false
  has_provider (some v) = elim (k.as_table v) [
    | none ↦ false
    | some table ↦ elim (lookup codex_provider_id table) [ none ↦ false | some _ ↦ true ]
  ]

  -- The mutation of `ClearProvider`
  unfoldable pub cleared : Fields → Dict V → Fields × Edit × Bool
  unfolding ◌==◌ delete_field set_field get_field lookup
  cleared auth settings =
      let keyed = text_of (get_field auth_mode_field auth) == auth_mode_api_key in
      let active = toml_text (lookup (codes "model_provider") settings) == codex_provider_id in
      let drops = has_provider (lookup (codes "model_providers") settings) in
      (
        if keyed
            then set_field auth_mode_field (string auth_mode_chatgpt)
                (delete_field api_key_field auth)
            else auth,
        record {
          root =
              if active
              then record { key = codes "model_provider"; value = [] }
                ∷ record { key = codes "model"; value = [] }
                ∷ []
              else [];
          provider = [];
          drop_provider_table = drops;
        },
        keyed || (active || drops),
      )

module _ {V : Type 0} (k : Codecs V) (c : Calls) (h : Home) where
  unfoldable pub home_resolved : Mutation V → Option Str → Outcome
  unfolding update_codex_llm_config
  home_resolved mutate (some e) = (h, some (io e))
  home_resolved mutate none = update_codex_llm_config k c h mutate

  -- `ApplyProvider`
  unfoldable pub apply_provider : LlmProvider → Outcome
  unfolding home_resolved set_auth provider_edit
  apply_provider p =
      if is_empty p.base_url
      then (h, some no_base_url)
      else if is_empty p.model
      then (h, some no_model)
      else home_resolved (λ auth settings. (set_auth p auth, provider_edit k p, true)) c.home

  -- `ClearProvider`
  unfoldable pub clear_provider : Outcome
  unfolding home_resolved cleared
  clear_provider = home_resolved (cleared k) c.home
