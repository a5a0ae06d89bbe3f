-- ===== src/Json/Laws.antt =====
-- A map decoded from an object, after a write or a deletion of a key.
use casdoor_aiguard.Common.Text.{Str, ◌==◌, eq_iff}
use casdoor_aiguard.Common.{none, some, ◌≡◌, refl, arith, if◌then◌else◌}
use casdoor_aiguard.Json.{
  Json, Fields, end, field, append_field, delete_field, get_field, set_field,
}

pub get_field-append_field :
    (k j : Str) (v : Json) (fs : Fields)
    → get_field j (append_field k v fs) ≡ (if k == j then some v else get_field j fs)
unfolding get_field append_field
get_field-append_field k j v end = refl
get_field-append_field k j v (field i u fs) = ground (arith, get_field-append_field k j v fs)

pub get_field-delete_field :
    (k j : Str) (fs : Fields)
    → get_field j (delete_field k fs) ≡ (if k == j then none else get_field j fs)
unfolding get_field delete_field
get_field-delete_field k j end = ground arith
get_field-delete_field k j (field i u fs) =
    ground (arith, eq_iff k j, eq_iff i k, eq_iff i j, get_field-delete_field k j fs)

pub get_field-set_field :
    (k j : Str) (v : Json) (fs : Fields)
    → get_field j (set_field k v fs) ≡ (if k == j then some v else get_field j fs)
unfolding set_field
get_field-set_field k j v fs =
    ground (arith, get_field-append_field k j v (delete_field k fs), get_field-delete_field k j fs)
