-- ===== src/Patch/CodexLlm/Pointed.antt =====
-- patch/codex_llm.go, `ApplyProvider`: where the files point behind a switch.
use casdoor_aiguard.Common.Dict.{Dict, lookup}
use casdoor_aiguard.Common.Text.{Str, ◌==◌, codes, is_empty}
use casdoor_aiguard.Common.{
  All, Option-cases, Bool, true, ℕ, Option, none, some, ◌++◌, ◌≡◌, refl, sym, ◌∙◌, Bool-cases, inl,
  inr, subst,
}
use casdoor_aiguard.Files.Atomic.{IsAtomic, atomic_write_file-IsAtomic, new_file}
use casdoor_aiguard.Files.{File, Written, atomic_write_file}
use casdoor_aiguard.Json.Laws.{get_field-set_field}
use casdoor_aiguard.Json.{Fields, get_field, set_field, string}
use casdoor_aiguard.Patch.CodexLlm.Provider.{apply_provider, home_resolved, provider_edit, set_auth}
use casdoor_aiguard.Patch.CodexLlm.Switched.{IsAtomic-replaced}
use casdoor_aiguard.Patch.CodexLlm.Update.{
  Outcome, auth_read, auth_written, backup_read, config_edited, config_read, config_written,
  dirs_made, mutated, new_config, some_text, update_codex_llm_config, write_both,
}
use casdoor_aiguard.Patch.CodexLlm.{
  Attempt, LlmProvider, Calls, Codecs, Home, SwitchError, api_key_field, auth_mode_api_key,
  auth_mode_field, failed, got,
}
use casdoor_aiguard.Patch.CodexToml.Edit.{Edit, Result, err, is_empty_edit, ok}
use casdoor_aiguard.Patch.CodexToml.Said.{
  Holds, ProviderHolds, dropped, provided, unasked, Says, edit_codex_toml-Says,
}
use casdoor_aiguard.Patch.CodexToml.Verify.{edit_codex_toml, member, provider_of, table_in}

set_auth-mode :
    (p : LlmProvider) (fields : Fields)
    → get_field auth_mode_field (set_auth p fields) ≡ some (string auth_mode_api_key)
unfolding set_auth ◌==◌
set_auth-mode p fields =
    get_field-set_field api_key_field auth_mode_field (string p.api_key)
      (set_field auth_mode_field (string auth_mode_api_key) fields)
    ∙ get_field-set_field auth_mode_field auth_mode_field (string auth_mode_api_key) fields

set_auth-key :
    (p : LlmProvider) (fields : Fields)
    → get_field api_key_field (set_auth p fields) ≡ some (string p.api_key)
unfolding set_auth ◌==◌
set_auth-key p fields =
    get_field-set_field api_key_field api_key_field (string p.api_key)
      (set_field auth_mode_field (string auth_mode_api_key) fields)

module _ {V : Type 0} (k : Codecs V) (p : LlmProvider) where
  -- A table says that a key has a value, which is written as this text.
  abbrev pub HasKey : Dict V → Str → Str → Type 0
  HasKey table key value =
      Holds k.unmarshal k.as_table k.deep_equal table (record { key = key; value = value })

  -- What go-toml reads in a config.toml that points at the provider.
  pub record ConfigPoints (text : Str) : Type 0 where
    pub settings : Dict V
    pub reads : k.unmarshal text ≡ some settings
    pub active : HasKey settings (codes "model_provider") (k.quote (codes "aiguard"))
    pub model : HasKey settings (codes "model") (k.quote p.model)
    pub providers : V
    pub provider : V
    pub all : Dict V
    pub table : Dict V
    pub providers_there : lookup (codes "model_providers") settings ≡ some providers
    pub providers_table : k.as_table providers ≡ some all
    pub provider_there : lookup (codes "aiguard") all ≡ some provider
    pub provider_table : k.as_table provider ≡ some table
    pub named : HasKey table (codes "name") (k.quote (codes "AIGuard"))
    pub url : HasKey table (codes "base_url") (k.quote p.base_url)
    pub wire_api : HasKey table (codes "wire_api") (k.quote (codes "responses"))
    pub auth : HasKey table (codes "requires_openai_auth") (codes "true")

  abbrev of_provider : Dict V → Option (Dict V)
  of_provider settings = provider_of k.unmarshal k.as_table k.deep_equal settings

  -- A table of the provider is found by way of the table of all providers.
  provider_of-there :
      (settings table : Dict V)
      → of_provider settings ≡ some table
      → (v : V) × (all : Dict V) × (w : V) × (lookup (codes "model_providers") settings ≡ some v)
        × (k.as_table v ≡ some all)
        × (lookup (codes "aiguard") all ≡ some w)
        × (k.as_table w ≡ some table)
  unfolding provider_of table_in member
  provider_of-there settings table h =
      elim (Option-cases (lookup (codes "model_providers") settings)) [
        | inl e ↦ cc (rw (e, table_in, member) at h)
        | inr (v, e) ↦ elim (Option-cases (k.as_table v)) [
          | inl f ↦ cc (rw (e, f, table_in, member) at h)
          | inr (all, f) ↦ elim (Option-cases (lookup (codes "aiguard") all)) [
            | inl g ↦ cc (rw (e, f, g, table_in, member) at h)
            | inr (w, g) ↦ (v, all, w, e, f, g, rw (e, f, g, table_in, member) at h)
          ]
        ]
      ]

  provider_table_of :
      {o : Option (Dict V)}
      → ProviderHolds k.unmarshal k.as_table k.deep_equal (provider_edit k p) o
      → (table : Dict V) × (o ≡ some table)
        × All (Holds k.unmarshal k.as_table k.deep_equal table) (provider_edit k p).provider
  unfolding provider_edit
  provider_table_of (dropped e) = cc
  provider_table_of (unasked e q) = cc
  provider_table_of (provided {p = table} e all) = (table, refl, all)

  Says-ConfigPoints :
      (text : Str)
      → Says k.unmarshal k.as_table k.deep_equal text (provider_edit k p)
      → ConfigPoints text
  unfolding provider_edit
  Says-ConfigPoints text says =
      let (active, (model, end_)) = says.root in
      let (table, found, (named, (url, (wire, (auth, over))))) = provider_table_of says.provider in
      let (v, all, w, a, b, c, d) = provider_of-there says.settings table found in
      record {
        settings = says.settings;
        reads = says.reads;
        active = active;
        model = model;
        providers = v;
        provider = w;
        all = all;
        table = table;
        providers_there = a;
        providers_table = b;
        provider_there = c;
        provider_table = d;
        named = named;
        url = url;
        wire_api = wire;
        auth = auth;
      }

  -- Two files that point at the provider: the fields of auth.json, and what go-toml reads in config.toml.
  pub data PointsAt : Home → Type 0 where
    points :
        (auth config : File) (fields : Fields) (text : Str)
        → k.marshal fields ≡ some text
        → auth.content ≡ text ++ codes "\n"
        → get_field auth_mode_field fields ≡ some (string auth_mode_api_key)
        → get_field api_key_field fields ≡ some (string p.api_key)
        → ConfigPoints config.content
        → PointsAt (record { auth = some auth; config = some config })

  -- An outcome without an error points at the provider.
  data Pointed : Outcome → Type 0 where
    not_switched : {h : Home} {e : SwitchError} → Pointed (h, some e)
    switched : {h : Home} → PointsAt h → Pointed (h, none)

  Pointed-points : {o : Outcome} → Pointed o → o.1 ≡ none → PointsAt o.0
  Pointed-points not_switched q = cc
  Pointed-points (switched at) q = at

  abbrev Right : Str → Type 0
  Right text = Says k.unmarshal k.as_table k.deep_equal text (provider_edit k p)

  module _ (c : Calls) (h : Home) (fields : Fields)
      (mode_set : get_field auth_mode_field fields ≡ some (string auth_mode_api_key))
      (key_set : get_field api_key_field fields ≡ some (string p.api_key)) where
    config_written-Pointed :
        (mode config_mode : ℕ) (text new : Str) (auth config : Written) (r : Option Str)
        → k.marshal fields ≡ some text
        → Right new
        → auth.disk.target ≡ some (new_file c.write_auth (text ++ codes "\n") mode h.auth)
        → IsAtomic c.write_config new config_mode h.config config
        → config.error ≡ r
        → Pointed (config_written k c h mode auth config r)
    unfolding config_written
    config_written-Pointed mode config_mode text new auth config (some e) q says a b d =
        not_switched
    config_written-Pointed mode config_mode text new auth config none q says a b d =
        subst (λ t. Pointed (record { auth = t; config = config.disk.target }, none)) (sym a)
          (subst
            (λ t. Pointed (
              record {
                auth = some (new_file c.write_auth (text ++ codes "\n") mode h.auth);
                config = t;
              },
              none,
            ))
            (sym (IsAtomic-replaced c.write_config new config_mode h.config b d))
            (switched
              (points _ _ fields text q refl mode_set key_set (Says-ConfigPoints new says))))

    auth_written-Pointed :
        (mode config_mode : ℕ) (text new : Str) (auth : Written) (r : Option Str)
        → k.marshal fields ≡ some text
        → Right new
        → IsAtomic c.write_auth (text ++ codes "\n") mode h.auth auth
        → auth.error ≡ r
        → Pointed (auth_written k c h mode config_mode (some new) auth r)
    unfolding auth_written
    auth_written-Pointed mode config_mode text new auth (some e) q says a b = not_switched
    auth_written-Pointed mode config_mode text new auth none q says a b =
        config_written-Pointed mode config_mode text new auth
          (atomic_write_file c.write_config new config_mode h.config) _ q says
          (IsAtomic-replaced c.write_auth (text ++ codes "\n") mode h.auth a b)
          (atomic_write_file-IsAtomic c.write_config new config_mode h.config) refl

    dirs_made-Pointed :
        (mode config_mode : ℕ) (new : Str) (made encoded : Option Str)
        → k.marshal fields ≡ encoded
        → Right new
        → Pointed (dirs_made k c h mode config_mode fields (some new) made)
    unfolding dirs_made write_both
    dirs_made-Pointed mode config_mode new (some e) encoded q says = not_switched
    dirs_made-Pointed mode config_mode new none encoded q says =
        subst (λ o. Pointed (write_both k c h mode config_mode (some new) o)) (sym q) (go encoded q)
      where
        go :
            (o : Option Str)
            → k.marshal fields ≡ o
            → Pointed (write_both k c h mode config_mode (some new) o)
        go none q = not_switched
        go (some text) q =
            auth_written-Pointed mode config_mode text new _ _ q says
              (atomic_write_file-IsAtomic c.write_auth (text ++ codes "\n") mode h.auth) refl

    config_edited-Pointed :
        (mode config_mode : ℕ) (r : Result Str)
        → ((new : Str) → r ≡ ok new → Right new)
        → Pointed (config_edited k c h mode config_mode fields (some_text r))
    unfolding config_edited
    config_edited-Pointed mode config_mode (err e) says = not_switched
    config_edited-Pointed mode config_mode (ok new) says =
        dirs_made-Pointed mode config_mode new c.make_dirs _ refl (says new refl)

  module _ (c : Calls) (h : Home) where
    abbrev switch : Fields → Dict V → Fields × Edit × Bool
    switch auth settings = (set_auth p auth, provider_edit k p, true)

    config_read-Pointed :
        (auth : Fields × Str × ℕ) (r : Attempt (Dict V × Str × ℕ))
        → Pointed (config_read k c h switch auth r)
    unfolding config_read mutated new_config is_empty_edit provider_edit
    config_read-Pointed auth (failed e) = not_switched
    config_read-Pointed (auth, text, mode) (got (settings, content, config_mode)) =
        config_edited-Pointed c h (set_auth p auth) (set_auth-mode p auth) (set_auth-key p auth)
          mode config_mode
          (edit_codex_toml k.unmarshal k.as_table k.deep_equal content (provider_edit k p))
          (λ new q.
            edit_codex_toml-Says k.unmarshal k.as_table k.deep_equal content (provider_edit k p) new
              q)

    auth_read-Pointed : (r : Attempt (Fields × Str × ℕ)) → Pointed (auth_read k c h switch r)
    unfolding auth_read
    auth_read-Pointed (failed e) = not_switched
    auth_read-Pointed (got auth) = config_read-Pointed auth _

    backup_read-Pointed : (r : Option Str) → Pointed (backup_read k c h switch r)
    unfolding backup_read
    backup_read-Pointed (some e) = not_switched
    backup_read-Pointed none = auth_read-Pointed _

    home_resolved-Pointed : (r : Option Str) → Pointed (home_resolved k c h switch r)
    unfolding home_resolved update_codex_llm_config
    home_resolved-Pointed (some e) = not_switched
    home_resolved-Pointed none = backup_read-Pointed c.read_backup

    -- Behind a switch without an error, auth.json is the text of fields with the provider's key and
    -- the mode that uses it, and go-toml finds in config.toml aiguard's provider as the active one,
    -- the model, and the provider's table with its URL.
    pub apply_provider-PointsAt :
        (apply_provider k c h p).1 ≡ none → PointsAt (apply_provider k c h p).0
    unfolding apply_provider
    apply_provider-PointsAt = Pointed-points (elim (Bool-cases (is_empty p.base_url)) [
      | inl e ↦ rw e not_switched
      | inr e ↦ elim (Bool-cases (is_empty p.model)) [
        | inl f ↦ rw (e, f) not_switched
        | inr f ↦ rw (e, f) (home_resolved-Pointed c.home)
      ]
    ])
