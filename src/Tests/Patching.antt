-- ===== src/Tests/Patching.antt =====
-- Edits of a config.toml.
use casdoor_aiguard.Common.Dict.{Dict}
use casdoor_aiguard.Common.Text.{Str, codes, ◌==◌, trim_space}
use casdoor_aiguard.Common.{
  ℕ, true, false, Option, none, some, List, [], ◌∷◌, ◌≡◌, refl, drop, if◌then◌else◌,
}
use casdoor_aiguard.Patch.CodexToml.Document.{Entry, locate}
use casdoor_aiguard.Patch.CodexToml.Edit.{Edit, ok, apply, line_at}
use casdoor_aiguard.Patch.CodexToml.Edited.{IsEditOf, edit_codex_toml-IsEditOf}
use casdoor_aiguard.Patch.CodexToml.Lines.{body_of}
use casdoor_aiguard.Patch.CodexToml.Located.{IsLocated}
use casdoor_aiguard.Patch.CodexToml.Located.Parsed.{locate-IsLocated}
use casdoor_aiguard.Patch.CodexToml.Said.{Says, edit_codex_toml-Says}
use casdoor_aiguard.Patch.CodexToml.Scan.{toml_assignment}
use casdoor_aiguard.Patch.CodexToml.Verify.{edit_codex_toml}

abbrev relay : Edit
relay = record {
  root =
      record { key = codes "model_provider"; value = codes "\"aiguard\"" }
      ∷ record { key = codes "model"; value = codes "\"gpt-5-codex\"" }
      ∷ [];
  provider =
      record { key = codes "name"; value = codes "\"AIGuard\"" }
      ∷ record { key = codes "requires_openai_auth"; value = codes "true" }
      ∷ [];
  drop_provider_table = false;
}

abbrev config : Str
config =
    codes
      "# Codex.\nmodel = \"gpt-5\"   # mine\n\n[mcp.docs]\nargs = [\n  \"-y\", # \"]\"\n]\n\n[[p]]\nname = \"r\""

abbrev relayed : Str
relayed =
    codes
      "# Codex.\nmodel = \"gpt-5-codex\"   # mine\nmodel_provider = \"aiguard\"\n\n[mcp.docs]\nargs = [\n  \"-y\", # \"]\"\n]\n\n[[p]]\nname = \"r\"\n\n[model_providers.aiguard]\nname = \"AIGuard\"\nrequires_openai_auth = true\n"

runs_relay : apply (locate config) relay ≡ ok relayed
unfolding apply locate
runs_relay = refl

locate-IsLocated_example : IsLocated (locate config)
locate-IsLocated_example = locate-IsLocated config

-- A parser for the keys of the top level, whose values are texts as they are written.
text_after : Option (Str × ℕ) → Str → Str
unfolding trim_space
text_after none body = []
text_after (some (key, start)) body = trim_space (drop start body)

top_level : List Str → List Entry → Dict Str
unfolding toml_assignment line_at text_after ◌==◌
top_level lines [] = []
top_level lines (e ∷ es) =
    let body = body_of (line_at e.start lines) in
    let rest = top_level lines es in
    if e.table == [] then (e.key, text_after (toml_assignment body) body) ∷ rest else rest

unmarshal : Str → Option (Dict Str)
unfolding locate top_level
unmarshal text = some (top_level (locate text).lines (locate text).entries)

abbrev switch_back : Edit
switch_back = record {
  root =
      record { key = codes "model_provider"; value = [] }
      ∷ record { key = codes "model"; value = codes "\"o\"" }
      ∷ [];
  provider = [];
  drop_provider_table = true;
}

abbrev patched : Str
patched =
    codes
      "model_provider = \"aiguard\"\nmodel = \"gpt\"\n# Mine.\n\n[model_providers.aiguard]\nname = \"A\"\n"

abbrev switched : Str
switched = codes "model = \"o\"\n# Mine.\n"

runs_switch_back : edit_codex_toml unmarshal (λ v. none) ◌==◌ patched switch_back ≡ ok switched
unfolding edit_codex_toml unmarshal
runs_switch_back = refl

edit_codex_toml-IsEditOf_example : IsEditOf patched switch_back switched
edit_codex_toml-IsEditOf_example =
    edit_codex_toml-IsEditOf unmarshal (λ v. none) ◌==◌ patched switch_back switched
      runs_switch_back

edit_codex_toml-Says_example : Says unmarshal (λ v. none) ◌==◌ switched switch_back
edit_codex_toml-Says_example =
    edit_codex_toml-Says unmarshal (λ v. none) ◌==◌ patched switch_back switched runs_switch_back
