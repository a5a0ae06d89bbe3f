-- ===== src/Sanitize.antt =====
-- auditutil/sanitize.go: what is redacted before an operation is recorded. The redaction of a text by
-- regular expressions, `SanitizeString`, is a parameter.
pub mod Redaction
pub mod ToolNames
pub mod Writes
pub mod Files
use casdoor_aiguard.Common.Text.{Str, ◌==◌, codes, has_infix, has_prefix, has_suffix, lower_text}
use casdoor_aiguard.Common.{
  ℕ, Bool, true, false, not, ◌&&◌, ◌||◌, Option, none, some, List, [], ◌∷◌, ◌++◌, any, eqb, keep_if,
  map, if◌then◌else◌,
}
use casdoor_aiguard.Json.{
  Json, Items, Fields, null, boolean, number, string, array, object, nil, cons, end, field,
  get_field,
}
use mathlib.Core.List.{reverse}

-- `strings.NewReplacer("_", "", "-", "", ".", "")`
unfoldable pub without_punctuation : Str → Str
unfolding keep_if
without_punctuation s = keep_if (λ c. not (eqb c b'_' || (eqb c b'-' || eqb c b'.'))) s

abbrev pub markers : List Str
markers =
    codes "secret"
    ∷ codes "token"
    ∷ codes "password"
    ∷ codes "passwd"
    ∷ codes "credential"
    ∷ codes "privatekey"
    ∷ codes "apikey"
    ∷ codes "accesskey"
    ∷ codes "authorization"
    ∷ codes "cookie"
    ∷ []

-- `SensitiveKey`, on the normalized name; its first test is of four names
unfoldable pub is_sensitive_name : Str → Bool
unfolding any has_infix ◌==◌
is_sensitive_name name =
    name == codes "token"
    || (name == codes "accesstoken" || (name == codes "refreshtoken" || name == codes "idtoken"))
    || any (λ marker. has_infix marker name) markers

unfoldable pub sensitive_key : Str → Bool
unfolding is_sensitive_name without_punctuation lower_text
sensitive_key key = is_sensitive_name (without_punctuation (lower_text key))

abbrev pub redacted : Json
redacted = string (codes "[REDACTED]")

module _ (sanitize_string : Str → Str) where
  unfoldable mutual
    -- `SanitizeValue` on a value whose own name is not a credential's.
    pub sanitize_inner : Json → Json
    sanitize_inner null = null
    sanitize_inner (boolean b) = boolean b
    sanitize_inner (number n) = number n
    sanitize_inner (string s) = string (sanitize_string s)
    sanitize_inner (array xs) = array (sanitize_items xs)
    sanitize_inner (object fs) = object (sanitize_fields fs)

    -- An item of an array has the empty name, which is no credential's.
    pub sanitize_items : Items → Items
    sanitize_items nil = nil
    sanitize_items (cons v xs) = cons (sanitize_inner v) (sanitize_items xs)

    pub sanitize_fields : Fields → Fields
    sanitize_fields end = end
    sanitize_fields (field k v fs) =
        let inner = sanitize_inner v in
        let rest = sanitize_fields fs in field k (if sensitive_key k then redacted else inner) rest

  -- `SanitizeValue`
  unfoldable pub sanitize_value : Str → Json → Json
  sanitize_value key v = if sensitive_key key then redacted else sanitize_inner v
