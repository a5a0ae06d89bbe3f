-- ===== src/Tests/Switching.antt =====
-- patch/codex_llm.go and util/atomicfile.go: concrete switches of Codex to a provider.
use casdoor_aiguard.Common.Dict.{Dict}
use casdoor_aiguard.Common.Text.{Str, codes, ◌==◌, trim_space}
use casdoor_aiguard.Common.{
  Bool, ℕ, true, false, Option, none, some, List, [], ◌∷◌, ◌++◌, ◌≡◌, refl, drop, if◌then◌else◌,
  Bool-cases, inl, inr, eqb,
}
use casdoor_aiguard.Files.Atomic.{IsAtomic, atomic_write_file-IsAtomic}
use casdoor_aiguard.Files.{File, Outcomes, atomic_write_file}
use casdoor_aiguard.Json.{end}
use casdoor_aiguard.Patch.CodexLlm.Pointed.{PointsAt, apply_provider-PointsAt}
use casdoor_aiguard.Patch.CodexLlm.Provider.{apply_provider, provider_edit, set_auth}
use casdoor_aiguard.Patch.CodexLlm.Switched.{Restores, update_codex_llm_config-failed}
use casdoor_aiguard.Patch.CodexLlm.Update.{Mutation, update_codex_llm_config}
use casdoor_aiguard.Patch.CodexLlm.{Calls, Codecs, Home, LlmProvider, config_not_written}
use casdoor_aiguard.Patch.CodexToml.Document.{Entry, locate}
use casdoor_aiguard.Patch.CodexToml.Edit.{line_at}
use casdoor_aiguard.Patch.CodexToml.Lines.{body_of}
use casdoor_aiguard.Patch.CodexToml.Scan.{toml_assignment}
use casdoor_aiguard.Patch.CodexToml.Verify.{edit_codex_toml}

-- A parser for the keys of the top level and of the provider's table. A table is the document it is in.
data Value : Type 0 where
  written_as : Str → Value
  providers : Str → Value
  provider : Str → Value

value_after : Option (Str × ℕ) → Str → Value
unfolding trim_space
value_after none body = written_as []
value_after (some (key, start)) body = written_as (trim_space (drop start body))

keys_of : Str → List Str → List Entry → Dict Value
unfolding toml_assignment line_at value_after ◌==◌
keys_of table lines [] = []
keys_of table lines (e ∷ es) =
    let body = body_of (line_at e.start lines) in
    let rest = keys_of table lines es in
    if e.table == table then (e.key, value_after (toml_assignment body) body) ∷ rest else rest

table_of_document : Str → Str → Dict Value
unfolding locate keys_of
table_of_document name text = keys_of name (locate text).lines (locate text).entries

as_table : Value → Option (Dict Value)
unfolding table_of_document
as_table (written_as _) = none
as_table (providers text) = some ((codes "aiguard", provider text) ∷ [])
as_table (provider text) = some (table_of_document (codes "model_providers.aiguard") text)

unmarshal : Str → Option (Dict Value)
unfolding table_of_document
unmarshal text = some ((codes "model_providers", providers text) ∷ table_of_document [] text)

same_text : Value → Value → Bool
unfolding ◌==◌
same_text (written_as a) (written_as b) = a == b
same_text _ _ = false

abbrev codecs : Codecs Value
codecs = record {
  parse_json = λ _. some end;
  marshal = λ _. some (codes "{}");
  unmarshal = unmarshal;
  as_table = as_table;
  as_string = λ _. none;
  deep_equal = same_text;
  quote = λ s. codes "\"" ++ (s ++ codes "\"");
}

abbrev fine : Outcomes
fine = record {
  process = 0;
  stat = none;
  create = none;
  write = none;
  stat_temp = none;
  chown = none;
  chmod = none;
  close = none;
  rename = none;
  remove = none;
}

abbrev calls : Outcomes → Calls
calls config = record {
  home = none;
  read_backup = none;
  read_auth = none;
  stat_auth = none;
  read_config = none;
  stat_config = none;
  make_dirs = none;
  write_auth = fine;
  write_config = config;
  remove = none;
  restore = fine;
}

-- Another user's Codex, with an auth.json and without a config.toml.
abbrev old_auth : File
old_auth = record { content = codes "{\"auth_mode\":\"chatgpt\"}"; mode = 416; owner = 1000 }

abbrev home : Home
home = record { auth = some old_auth; config = none }

abbrev relay : LlmProvider
relay = record {
  base_url = codes "http://r";
  api_key = codes "k";
  model = codes "gpt";
  small_fast_model = [];
}

applies : (apply_provider codecs (calls fine) home relay).1 ≡ none
unfolding apply_provider edit_codex_toml unmarshal as_table same_text atomic_write_file
applies = refl

apply_provider-PointsAt_example :
    PointsAt codecs relay (apply_provider codecs (calls fine) home relay).0
apply_provider-PointsAt_example = apply_provider-PointsAt codecs relay (calls fine) home applies

atomic_write_file-IsAtomic_example :
    IsAtomic fine
      (codes "{}")
      384
      (some old_auth)
      (atomic_write_file fine (codes "{}") 384 (some old_auth))
atomic_write_file-IsAtomic_example =
    atomic_write_file-IsAtomic fine (codes "{}") 384 (some old_auth)

-- The disk is full when config.toml is written, behind auth.json.
abbrev full : Outcomes
full = record fine { write = some (codes "[mod", codes "no space left on device") }

full-Restores : Restores (calls full)
unfolding atomic_write_file
full-Restores = record { removes = refl; writes = fine_error }
  where
    fine_error :
        (text : Str) (mode : ℕ) (t : Option File)
        → (atomic_write_file fine text mode t).error ≡ none
    fine_error text mode none = refl
    fine_error text mode (some f) = elim (Bool-cases (eqb 0 f.owner)) [
      | inl e ↦ rw e
      | inr e ↦ rw e
    ]

abbrev to_relay : Mutation Value
to_relay auth settings = (set_auth relay auth, provider_edit codecs relay, true)

fails :
    (update_codex_llm_config codecs (calls full) home to_relay).1
    ≡ some (config_not_written (codes "no space left on device"))
unfolding update_codex_llm_config edit_codex_toml unmarshal as_table same_text atomic_write_file
    set_auth provider_edit
fails = refl

update_codex_llm_config-failed_example :
    (update_codex_llm_config codecs (calls full) home to_relay).0 ≡ home
update_codex_llm_config-failed_example =
    update_codex_llm_config-failed codecs (calls full) home full-Restores to_relay
      (config_not_written (codes "no space left on device")) fails
