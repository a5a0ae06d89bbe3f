-- ===== src/Tests/Sanitizing.antt =====
-- A tool's input with a password in it, and the name of an MCP tool.
use casdoor_aiguard.Common.Text.{Str, codes}
use casdoor_aiguard.Common.{true, false, ◌≡◌, ◌⊎◌, refl}
use casdoor_aiguard.Json.{Json, array, cons, end, field, nil, object, string}
use casdoor_aiguard.Sanitize.Files.{
  is_content_key, has_sensitive_path, hidden_content, is_sensitive_write, sanitize_tool_input,
}
use casdoor_aiguard.Sanitize.Writes.{Shows, sanitize_tool_input-Shows}
use casdoor_aiguard.Sanitize.Redaction.{IsClean, sanitize_value-IsClean}
use casdoor_aiguard.Sanitize.{redacted, sanitize_inner, sanitize_value, sensitive_key}

-- A redaction that hides every text.
abbrev hide : Str → Str
hide s = codes "***"

abbrev input : Json
input = object (
    field (codes "command") (string (codes "login")) (
      field (codes "args")
        (array (cons (object (field (codes "Pass-Word") (string (codes "pw")) end)) nil)) end))

sanitize_value-IsClean_example :
    ((sensitive_key (codes "input") ≡ true)
      × (sanitize_value hide (codes "input") input ≡ redacted))
    ⊎ ((sensitive_key (codes "input") ≡ false)
        × IsClean hide (sanitize_value hide (codes "input") input))
sanitize_value-IsClean_example = sanitize_value-IsClean hide (codes "input") input

abbrev key_file : Json
key_file = object (
    field (codes "file_path") (string (codes "/home/ann/.ssh/id_rsa"))
      (field (codes "content") (string (codes "-----")) end))

runs_sensitive_write :
    sanitize_tool_input hide (codes "Write") key_file
    ≡ object (
        field
          (codes "file_path")
          (string (codes "***"))
          (field (codes "content") hidden_content end))
unfolding sanitize_tool_input is_sensitive_write has_sensitive_path sanitize_value sensitive_key
    sanitize_inner is_content_key
runs_sensitive_write = refl

sanitize_tool_input-Shows_example :
    Shows hide (codes "Write") key_file (sanitize_tool_input hide (codes "Write") key_file)
sanitize_tool_input-Shows_example = sanitize_tool_input-Shows hide (codes "Write") key_file
