-- ===== src/Patch/CodexToml/Verify.antt =====
-- patch/codex_toml.go, `editCodexTOML` and `verifyCodexTOML`: the edit between two runs of go-toml,
-- which is a parameter: its parser into a table, the assertion that a value is a table, and
-- `reflect.DeepEqual`.
use casdoor_aiguard.Common.Dict.{Dict, lookup}
use casdoor_aiguard.Common.Text.{Str, codes, is_empty, trim_space}
use casdoor_aiguard.Common.{
  Bool, false, Option, none, some, List, [], ◌∷◌, ◌++◌, is_nil, if◌then◌else◌,
}
use casdoor_aiguard.Patch.CodexToml.Document.{locate}
use casdoor_aiguard.Patch.CodexToml.Edit.{
  Edit, Result, Setting, ◌>>=◌, apply, bad_value, cannot_parse, codex_provider_id,
  codex_provider_table, differs, does_not_define, err, no_longer_parses, ok, still_defines,
  still_has,
}

module _ {V : Type 0} (unmarshal : Str → Option (Dict V)) (as_table : V → Option (Dict V))
    (deep_equal : V → V → Bool) where
  -- `decodeTOMLValue`; `none` inside is the nil of a key that is missing.
  unfoldable pub probed : Str → Option (Dict V) → Result (Option V)
  unfolding lookup
  probed encoded none = err (bad_value encoded)
  probed encoded (some probe) = ok (lookup (codes "value") probe)

  unfoldable pub decode_toml_value : Str → Result (Option V)
  unfolding probed
  decode_toml_value encoded = probed encoded (unmarshal (codes "value = " ++ encoded))

  abbrev pub same_value : Option V → Option V → Bool
  same_value (some a) (some b) = deep_equal a b
  same_value _ _ = false

  unfoldable pub check_value : Str → Str → Option V → Option V → Result (Unit {0})
  check_value place key actual expected =
      if same_value actual expected then ok tt else err (differs place key)

  unfoldable pub check_removed : Str → Str → Option V → Result (Unit {0})
  check_removed place key none = ok tt
  check_removed place key (some v) = err (still_has place key)

  -- `verifyTOMLSetting`
  unfoldable pub verify_toml_setting : Dict V → Str → Setting → Result (Unit {0})
  unfolding lookup decode_toml_value check_value check_removed
  verify_toml_setting table place s =
      let actual = lookup s.key table in
      if is_empty s.value
      then check_removed place s.key actual
      else (do expected ← decode_toml_value s.value; check_value place s.key actual expected)

  unfoldable pub verify_settings : Dict V → Str → List Setting → Result (Unit {0})
  unfolding verify_toml_setting
  verify_settings table place [] = ok tt
  verify_settings table place (s ∷ ss) = do
    _ ← verify_toml_setting table place s
    verify_settings table place ss

  -- `value.(map[string]any)`, where a nil map holds nothing
  unfoldable pub table_in : Option V → Option (Dict V)
  table_in none = none
  table_in (some v) = as_table v

  unfoldable pub member : Str → Option (Dict V) → Option V
  unfolding lookup
  member key none = none
  member key (some table) = lookup key table

  -- `settings["model_providers"]`, its entry of the provider, and that as a table
  unfoldable pub provider_of : Dict V → Option (Dict V)
  unfolding lookup member table_in
  provider_of settings =
      let providers = table_in (lookup (codes "model_providers") settings) in
      table_in (member codex_provider_id providers)

  unfoldable pub verify_dropped : Option (Dict V) → Result (Unit {0})
  verify_dropped none = ok tt
  verify_dropped (some p) = err still_defines

  unfoldable pub verify_present : List Setting → Option (Dict V) → Result (Unit {0})
  unfolding verify_settings
  verify_present ss none = err does_not_define
  verify_present ss (some p) = verify_settings p codex_provider_table ss

  -- The part of `verifyCodexTOML` behind the root's settings.
  unfoldable pub verify_provider : Edit → Option (Dict V) → Result (Unit {0})
  unfolding verify_dropped verify_present
  verify_provider edit provider =
      if edit.drop_provider_table
      then verify_dropped provider
      else if is_nil edit.provider
      then ok tt
      else verify_present edit.provider provider

  unfoldable pub verify_read : Edit → Option (Dict V) → Result (Unit {0})
  unfolding verify_settings verify_provider provider_of
  verify_read edit none = err no_longer_parses
  verify_read edit (some settings) = do
    _ ← verify_settings settings [] edit.root
    verify_provider edit (provider_of settings)

  -- `verifyCodexTOML`
  unfoldable pub verify_codex_toml : Str → Edit → Result (Unit {0})
  unfolding verify_read
  verify_codex_toml text edit = verify_read edit (unmarshal text)

  unfoldable pub check_probe : Option (Dict V) → Result (Unit {0})
  check_probe none = err cannot_parse
  check_probe (some probe) = ok tt

  -- The check that opens `parseCodexTOML`.
  unfoldable pub check_parses : Str → Result (Unit {0})
  unfolding trim_space check_probe
  check_parses text = if is_empty (trim_space text) then ok tt else check_probe (unmarshal text)

  -- `editCodexTOML`
  unfoldable pub edit_codex_toml : Str → Edit → Result Str
  unfolding check_parses locate apply verify_codex_toml
  edit_codex_toml text edit = do
    _ ← check_parses text
    updated ← apply (locate text) edit
    _ ← verify_codex_toml updated edit
    ok updated
