-- ===== src/Sanitize/Files.antt =====
-- auditutil/sanitize.go: sensitive files, and what is hidden of a write to one.
use casdoor_aiguard.Common.Text.{Str, ◌==◌, codes, has_infix, has_prefix, has_suffix, lower_text}
use casdoor_aiguard.Common.{
  Bool, false, not, ◌&&◌, ◌||◌, Option, some, [], ◌∷◌, eqb, keep_if, map, if◌then◌else◌,
}
use casdoor_aiguard.Json.{Json, Fields, string, object, end, field, get_field}
use casdoor_aiguard.Sanitize.{sanitize_value}
use mathlib.Core.List.{reverse}

-- `path.Base`, on the reversed path: what stands before the next slash, behind the trailing ones
unfoldable pub without_slashes : Str → Str
without_slashes [] = []
without_slashes (c ∷ s) = if eqb c b'/' then without_slashes s else c ∷ s

unfoldable pub up_to_slash : Str → Str
up_to_slash [] = []
up_to_slash (c ∷ s) = let rest = up_to_slash s in if eqb c b'/' then [] else c ∷ rest

unfoldable pub base_of : Str → Str
unfolding without_slashes up_to_slash ◌==◌
base_of path =
    if path == []
    then codes "."
    else if without_slashes (reverse path) == []
    then codes "/"
    else reverse (up_to_slash (without_slashes (reverse path)))

abbrev pub with_slashes : Str → Str
with_slashes s = map (λ c. if eqb c b'\\' then b'/' else c) s

-- `isSensitivePath`, on the normalized path and its base
unfoldable pub is_sensitive_file : Str → Str → Bool
unfolding has_prefix has_suffix has_infix ◌==◌
is_sensitive_file normalized base =
    (has_prefix (codes ".env") base
      && (not (base == codes ".env.example")
          && (not (base == codes ".env.sample") && not (base == codes ".env.template"))))
    || (has_prefix (codes ".ssh/") normalized
        || (has_infix (codes "/.ssh/") normalized
            || (normalized == codes ".aws/credentials"
                || has_suffix (codes "/.aws/credentials") normalized)))
    || (base == codes ".npmrc"
        || (base == codes ".pypirc"
            || (base == codes "credentials"
                || (base == codes "id_rsa" || base == codes "id_ed25519"))))
    || (has_suffix (codes ".pem") base || has_suffix (codes ".key") base)

unfoldable pub is_sensitive_path : Str → Bool
unfolding is_sensitive_file base_of lower_text ◌==◌
is_sensitive_path path =
    if path == []
    then false
    else is_sensitive_file (lower_text (with_slashes path))
        (base_of (lower_text (with_slashes path)))

-- `stringValue`
unfoldable pub string_value : Option Json → Str
string_value (some (string s)) = s
string_value _ = []

-- `hasSensitivePath`
unfoldable pub has_sensitive_path : Json → Bool
unfolding is_sensitive_path string_value get_field ◌==◌
has_sensitive_path (object fs) = is_sensitive_path (
    if string_value (get_field (codes "file_path") fs) == []
    then string_value (get_field (codes "path") fs)
    else string_value (get_field (codes "file_path") fs))
has_sensitive_path _ = false

-- `isSensitiveWrite`
unfoldable pub is_sensitive_write : Str → Bool
unfolding lower_text has_suffix ◌==◌
is_sensitive_write tool_name =
    let name = lower_text tool_name in
    name == codes "write"
    || (name == codes "edit" || (name == codes "write_file" || name == codes "edit_file"))
    || (has_suffix (codes "__write_file") name || has_suffix (codes "__edit_file") name)

abbrev pub hidden_content : Json
hidden_content = string (codes "[REDACTED: sensitive file content]")

-- The `switch` on the normalized name of a field.
unfoldable pub is_content_key : Str → Bool
unfolding keep_if lower_text ◌==◌
is_content_key key =
    let name = lower_text (keep_if (λ c. not (eqb c b'_' || eqb c b'-')) key) in
    name == codes "content" || (name == codes "oldstring" || name == codes "newstring")

unfoldable pub hide_content : Fields → Fields
hide_content end = end
hide_content (field k v fs) =
    let rest = hide_content fs in field k (if is_content_key k then hidden_content else v) rest

unfoldable pub hide_in : Json → Json
unfolding hide_content
hide_in (object fs) = object (hide_content fs)
hide_in v = v

-- `SanitizeToolInput`
unfoldable pub sanitize_tool_input : (Str → Str) → Str → Json → Json
unfolding hide_in
sanitize_tool_input sanitize_string tool_name input =
    if not (is_sensitive_write tool_name) || not (has_sensitive_path input)
    then sanitize_value sanitize_string [] input
    else hide_in (sanitize_value sanitize_string [] input)
