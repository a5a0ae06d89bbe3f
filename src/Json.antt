-- ===== src/Json.antt =====
-- JSON values as `encoding/json` decodes them into `any`, and the decoding of an object into the
-- fields of a struct. The decoder from bytes is a parameter of the functions that call it.
pub mod Laws
use casdoor_aiguard.Common.{Bool, Option, none, some, if◌then◌else◌}
use casdoor_aiguard.Common.Text.{Str, ◌==◌}
use casdoor_aiguard.Float.{Float64}

mutual
  pub data Json : Type 0 where
    null : Json
    boolean : Bool → Json
    number : Float64 → Json
    string : Str → Json
    array : Items → Json
    object : Fields → Json

  pub data Items : Type 0 where
    nil : Items
    cons : Json → Items → Items

  pub data Fields : Type 0 where
    end : Fields
    field : Str → Json → Fields → Fields

-- `m[k]` on a `map[string]any` decoded from an object: the last entry of a key counts.
unfoldable pub get_field : Str → Fields → Option Json
unfolding ◌==◌
get_field k end = none
get_field k (field j v fs) = elim (get_field k fs) [
  | some w ↦ some w
  | none ↦ if j == k then some v else none
]

-- `m[k] = v`, and `delete(m, k)`
unfoldable pub delete_field : Str → Fields → Fields
unfolding ◌==◌
delete_field k end = end
delete_field k (field j v fs) =
    let rest = delete_field k fs in if j == k then rest else field j v rest

unfoldable pub append_field : Str → Json → Fields → Fields
append_field k v end = field k v end
append_field k v (field j u fs) = field j u (append_field k v fs)

unfoldable pub set_field : Str → Json → Fields → Fields
unfolding delete_field append_field
set_field k v fs = append_field k v (delete_field k fs)

-- `value.(map[string]any)` and `value.([]any)`, for a value that may be missing
abbrev pub object_value : Option Json → Option Fields
object_value (some (object fs)) = some fs
object_value _ = none

abbrev pub array_value : Option Json → Option Items
array_value (some (array xs)) = some xs
array_value _ = none

abbrev pub append_items : Items → Items → Items
append_items nil ys = ys
append_items (cons x xs) ys = cons x (append_items xs ys)
