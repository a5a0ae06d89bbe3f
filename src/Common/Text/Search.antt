-- ===== src/Common/Text/Search.antt =====
-- Equality, prefixes, substrings, splitting, joining and case of byte strings.
use Prim.Native.Char.{code}
use Prim.Native.Nat.{ℕ, ◌+◌}
use Prim.Native.String.{String}
use mathlib.Core.Bool.{Bool, true, false, ◌&&◌, ◌||◌}
use mathlib.Core.List.{List, [], ◌∷◌, ◌++◌, map, reverse}
use casdoor_aiguard.Common.Tests.{eqb, leb, if◌then◌else◌}
use casdoor_aiguard.Common.Lists.{length, drop}

abbrev pub Str : Type 0
Str = List ℕ

-- The bytes of an ASCII literal.
abbrev pub codes : String → Str
codes String.[] = []
codes (String.◌∷◌ c s) = code c ∷ codes s

infix 50 ◌==◌
unfoldable pub ◌==◌ : Str → Str → Bool
[] == [] = true
(x ∷ xs) == (y ∷ ys) = eqb x y && xs == ys
_ == _ = false

abbrev pub is_empty : Str → Bool
is_empty [] = true
is_empty (_ ∷ _) = false

-- `strings.HasPrefix(s, prefix)`; the prefix stands first.
unfoldable pub has_prefix : Str → Str → Bool
has_prefix [] s = true
has_prefix (x ∷ p) [] = false
has_prefix (x ∷ p) (y ∷ s) = eqb x y && has_prefix p s

-- `strings.HasSuffix`
unfoldable pub has_suffix : Str → Str → Bool
unfolding has_prefix
has_suffix p s = has_prefix (reverse p) (reverse s)

-- `strings.Contains(s, sub)`; the substring stands first.
unfoldable pub has_infix : Str → Str → Bool
unfolding has_prefix
has_infix p [] = has_prefix p []
has_infix p (y ∷ s) = has_prefix p (y ∷ s) || has_infix p s

-- `slices.Contains`
unfoldable pub contains : List Str → Str → Bool
unfolding ◌==◌
contains [] v = false
contains (item ∷ list) v = item == v || contains list v

abbrev push_front : ℕ → List Str → List Str
push_front c [] = (c ∷ []) ∷ []
push_front c (p ∷ ps) = (c ∷ p) ∷ ps

-- `strings.Split(s, sep)` for a separator of one byte
unfoldable pub split_byte : ℕ → Str → List Str
split_byte sep [] = [] ∷ []
split_byte sep (c ∷ s) =
    let rest = split_byte sep s in if eqb c sep then [] ∷ rest else push_front c rest

-- `strings.Join`
unfoldable pub join : Str → List Str → Str
join sep [] = []
join sep (x ∷ []) = x
join sep (x ∷ y ∷ xs) = x ++ (sep ++ join sep (y ∷ xs))

-- `LOWER` of SQLite, which is on ASCII
unfoldable pub lower_byte : ℕ → ℕ
lower_byte c = if leb b'A' c && leb c b'Z' then c + 32 else c

unfoldable pub to_lower : Str → Str
unfolding lower_byte
to_lower = map lower_byte

-- `strings.ToLower`, for a comparison with a text of ASCII: the Kelvin sign and the I with a dot are the
-- only characters beyond ASCII whose lower case is in ASCII. Other such characters stay as they are.
unfoldable pub lower_text : Str → Str
unfolding lower_byte has_prefix
lower_text [] = []
lower_text (c ∷ s) =
    let rest = lower_text s in
    if eqb c 0xE2 && has_prefix (0x84 ∷ 0xAA ∷ []) s
    then b'k' ∷ drop 2 rest
    else if eqb c 0xC4 && has_prefix (0xB0 ∷ []) s
    then b'i' ∷ drop 1 rest
    else lower_byte c ∷ rest

-- Case folding, for a comparison with a text of ASCII: the Kelvin sign folds to k, the long s to s.
unfoldable pub fold_text : Str → Str
unfolding lower_byte has_prefix
fold_text [] = []
fold_text (c ∷ s) =
    let rest = fold_text s in
    if eqb c 0xE2 && has_prefix (0x84 ∷ 0xAA ∷ []) s
    then b'k' ∷ drop 2 rest
    else if eqb c 0xC5 && has_prefix (0xBF ∷ []) s
    then b's' ∷ drop 1 rest
    else lower_byte c ∷ rest

-- `strings.EqualFold`, where one of the texts is of ASCII, as the names of fields and the ids of agents
-- are.
unfoldable pub equal_fold : Str → Str → Bool
unfolding fold_text ◌==◌
equal_fold s t = fold_text s == fold_text t

-- The text behind the first occurrence of a prefix that is known to be there.
abbrev pub trim_prefix : Str → Str → Str
trim_prefix p s = if has_prefix p s then drop (length p) s else s
