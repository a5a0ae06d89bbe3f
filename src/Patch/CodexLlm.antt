-- ===== src/Patch/CodexLlm.antt =====
-- patch/codex_llm.go: switching Codex to a provider and back, over auth.json and config.toml. The errors
-- of the calls, JSON, go-toml and `strconv.Quote` are parameters, and so is what `ResolveCodexHome` says.
pub mod Update
pub mod Provider
pub mod Switched
pub mod Pointed
use casdoor_aiguard.Common.Dict.{Dict, lookup}
use casdoor_aiguard.Common.Text.{Str, ◌==◌, codes, is_empty, trim_space}
use casdoor_aiguard.Common.{
  Bool, true, false, not, ◌||◌, ℕ, Option, none, some, List, [], ◌∷◌, ◌++◌, if◌then◌else◌,
}
use casdoor_aiguard.Files.{File, Outcomes, Written, atomic_write_file}
use casdoor_aiguard.Json.{Fields, Json, delete_field, end, get_field, set_field, string}
use casdoor_aiguard.Patch.CodexToml.Edit.{
  Edit, Result, Setting, codex_provider_id, err, is_empty_edit, ok,
}
use casdoor_aiguard.Patch.CodexToml.Edit
use casdoor_aiguard.Patch.CodexToml.Verify.{edit_codex_toml}

pub record LlmProvider : Type 0 where
  pub base_url : Str
  pub api_key : Str
  pub model : Str
  pub small_fast_model : Str

-- The two files.
pub record Home : Type 0 where
  pub auth : Option File
  pub config : Option File

-- How the calls end: `none` is no error, and a file that is not there is no error of a read.
pub record Calls : Type 0 where
  pub home : Option Str
  pub read_backup : Option Str
  pub read_auth : Option Str
  pub stat_auth : Option Str
  pub read_config : Option Str
  pub stat_config : Option Str
  pub make_dirs : Option Str
  pub write_auth : Outcomes
  pub write_config : Outcomes
  pub remove : Option Str
  pub restore : Outcomes

pub record Codecs (V : Type 0) : Type 0 where
  pub parse_json : Str → Option Fields
  pub marshal : Fields → Option Str
  pub unmarshal : Str → Option (Dict V)
  pub as_table : V → Option (Dict V)
  pub as_string : V → Option Str
  pub deep_equal : V → V → Bool
  pub quote : Str → Str

pub data SwitchError : Type 0 where
  no_base_url : SwitchError
  no_model : SwitchError
  io : Str → SwitchError
  cannot_parse : SwitchError
  cannot_update : Edit.Error → SwitchError
  not_encoded : SwitchError
  config_not_written : Str → SwitchError

pub data Attempt {ℓ} (A : Type ℓ) : Type ℓ where
  failed : SwitchError → Attempt A
  got : A → Attempt A

abbrev pub api_key_field : Str
api_key_field = codes "OPENAI_API_KEY"

abbrev pub auth_mode_field : Str
auth_mode_field = codes "auth_mode"

abbrev pub auth_mode_api_key : Str
auth_mode_api_key = codes "apikey"

abbrev pub auth_mode_chatgpt : Str
auth_mode_chatgpt = codes "chatgpt"

-- The mode of a new file, 0o600.
abbrev pub private_mode : ℕ
private_mode = 384

-- What both readers do with a file that could be read: its text, if it is not blank, is parsed.
unfoldable pub parsed {ℓ} : {A : Type ℓ} → File → Option A → Attempt (A × Str × ℕ)
parsed f none = failed cannot_parse
parsed f (some value) = got (value, f.content, f.mode)

unfoldable pub parse_file {ℓ} : {A : Type ℓ} → A → (Str → Option A) → File → Attempt (A × Str × ℕ)
unfolding parsed trim_space
parse_file blank parse f =
    parsed f (if is_empty (trim_space f.content) then some blank else parse f.content)

-- `readJSONConfigFile` and `readCodexTOML`, given the errors of ReadFile and Stat
unfoldable pub read_file {ℓ} :
    {A : Type ℓ}
    → Option Str
    → Option Str
    → A
    → (Str → Option A)
    → Option File
    → Attempt (A × Str × ℕ)
unfolding parse_file
read_file (some e) stat blank parse f = failed (io e)
read_file none stat blank parse none = got (blank, [], private_mode)
read_file none (some e) blank parse (some f) = failed (io e)
read_file none none blank parse (some f) = parse_file blank parse f
