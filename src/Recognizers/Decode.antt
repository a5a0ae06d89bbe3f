-- ===== src/Recognizers/Decode.antt =====
-- Decoding a JSON object into a struct, as `json.Unmarshal` does: each key of the object is matched
-- to a field by its name, exactly or with the case folded; a null leaves the field as it is; a
-- later key overwrites an earlier one; a value of another type makes the whole call fail.
use casdoor_aiguard.Common.{Bool, true, false, Option, none, some}
use casdoor_aiguard.Common.Text.{Str, equal_fold}
use casdoor_aiguard.Float.{Float64}
use casdoor_aiguard.Json.{Json, null, boolean, number, string, object, Fields, end, field}

-- A field's new value for one key of the object, or `none` where the type does not fit.
unfoldable pub set_string : Str → Json → Option Str
set_string old null = some old
set_string old (string s) = some s
set_string old _ = none

unfoldable pub set_number : Float64 → Json → Option Float64
set_number old null = some old
set_number old (number n) = some n
set_number old _ = none

unfoldable pub set_bool : Bool → Json → Option Bool
set_bool old null = some old
set_bool old (boolean b) = some b
set_bool old _ = none

-- `json.RawMessage` keeps whatever value stands there, null included.
unfoldable pub set_raw : Option Json → Json → Option (Option Json)
set_raw old v = some (some v)

-- Two objects decoded into one map, the second over the first.
unfoldable pub append_fields : Fields → Fields → Fields
append_fields end gs = gs
append_fields (field k v fs) gs = field k v (append_fields fs gs)

-- `map[string]interface{}`: an object is added to what the map holds, and null makes it nil.
unfoldable pub set_map : Fields → Json → Option Fields
unfolding append_fields
set_map old null = some end
set_map old (object fs) = some (append_fields old fs)
set_map old _ = none

-- One field of a struct, of a name and a way to set it, decoded from an object.
unfoldable pub decode_field {ℓ} : {A : Type ℓ} → Str → (A → Json → Option A) → A → Fields → Option A
unfolding equal_fold
decode_field name set old end = some old
decode_field name set old (field k v fs) = elim (equal_fold k name) [
  | false ↦ decode_field name set old fs
  | true ↦ elim (set old v) [ none ↦ none | some new ↦ decode_field name set new fs ]
]

-- A struct's bytes: an object, or null, which sets nothing.
unfoldable pub as_object : Option Json → Option Fields
as_object (some (object fs)) = some fs
as_object (some null) = some end
as_object _ = none
