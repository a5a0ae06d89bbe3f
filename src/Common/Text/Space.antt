-- ===== src/Common/Text/Space.antt =====
-- `strings.TrimSpace`: white space at either end, in UTF-8. The encodings are those of
-- unicode.White_Space: six ASCII bytes, U+0085, U+00A0, U+1680, U+2000 to U+200A, U+2028, U+2029,
-- U+202F, U+205F and U+3000.
use Prim.Native.Nat.{ℕ}
use mathlib.Core.Bool.{Bool, ◌&&◌, ◌||◌}
use mathlib.Core.List.{[], ◌∷◌, reverse}
use casdoor_aiguard.Common.Tests.{eqb, leb, if◌then◌else◌}
use casdoor_aiguard.Common.Text.Search.{Str}

unfoldable pub is_space_byte : ℕ → Bool
is_space_byte c = (leb 9 c && leb c 13) || eqb c b' '

unfoldable pub is_space_two : ℕ → ℕ → Bool
is_space_two a b = eqb a 0xC2 && (eqb b 0x85 || eqb b 0xA0)

unfoldable pub is_space_three : ℕ → ℕ → ℕ → Bool
is_space_three a b c =
    (eqb a 0xE1 && (eqb b 0x9A && eqb c 0x80))
    || (eqb a 0xE2
        && (eqb b 0x80
            && ((leb 0x80 c && leb c 0x8A) || (eqb c 0xA8 || (eqb c 0xA9 || eqb c 0xAF)))))
    || (eqb a 0xE2 && (eqb b 0x81 && eqb c 0x9F))
    || (eqb a 0xE3 && (eqb b 0x80 && eqb c 0x80))

-- `strings.TrimLeftFunc(s, unicode.IsSpace)`
unfoldable pub trim_left : Str → Str
unfolding is_space_byte is_space_two is_space_three
trim_left [] = []
trim_left (a ∷ []) = if is_space_byte a then [] else a ∷ []
trim_left (a ∷ b ∷ []) =
    let one = trim_left (b ∷ []) in
    if is_space_byte a then one else if is_space_two a b then [] else a ∷ b ∷ []
trim_left (a ∷ b ∷ c ∷ s) =
    let one = trim_left (b ∷ c ∷ s) in
    let two = trim_left (c ∷ s) in
    let three = trim_left s in
    if is_space_byte a
    then one
    else if is_space_two a b
    then two
    else if is_space_three a b c
    then three
    else a ∷ b ∷ c ∷ s

-- The same from the end, on the reversed bytes.
unfoldable pub trim_left_reversed : Str → Str
unfolding is_space_byte is_space_two is_space_three
trim_left_reversed [] = []
trim_left_reversed (a ∷ []) = if is_space_byte a then [] else a ∷ []
trim_left_reversed (a ∷ b ∷ []) =
    let one = trim_left_reversed (b ∷ []) in
    if is_space_byte a then one else if is_space_two b a then [] else a ∷ b ∷ []
trim_left_reversed (a ∷ b ∷ c ∷ s) =
    let one = trim_left_reversed (b ∷ c ∷ s) in
    let two = trim_left_reversed (c ∷ s) in
    let three = trim_left_reversed s in
    if is_space_byte a
    then one
    else if is_space_two b a
    then two
    else if is_space_three c b a
    then three
    else a ∷ b ∷ c ∷ s

unfoldable pub trim_right : Str → Str
unfolding trim_left_reversed
trim_right s = reverse (trim_left_reversed (reverse s))

-- `strings.TrimSpace`
unfoldable pub trim_space : Str → Str
unfolding trim_left trim_right
trim_space s = trim_right (trim_left s)
