-- ===== src/Float.antt =====
-- Go's `float64` as its 64 bits, with the IEEE 754 order that `<` and `<=` use. No arithmetic is
-- needed: amounts are read and compared.
use casdoor_aiguard.Common.{
  ℕ, ◌%◌, ◌^◌, Bool, true, false, not, ◌&&◌, ◌||◌, ltb, leb, eqb, if◌then◌else◌,
}

abbrev pub Float64 : Type 0
Float64 = ℕ

-- The sign bit, and the 63 bits below it.
unfoldable pub is_negative : Float64 → Bool
is_negative a = leb (2 ^ 63) a

unfoldable pub magnitude : Float64 → ℕ
magnitude a = a % 2 ^ 63

-- All exponent bits set, and a mantissa that is not zero.
unfoldable pub is_nan : Float64 → Bool
unfolding magnitude
is_nan a = ltb 0x7FF0000000000000 (magnitude a)

-- `a < b`
unfoldable pub float_lt : Float64 → Float64 → Bool
unfolding is_nan is_negative magnitude
float_lt a b =
    if is_nan a || is_nan b
    then false
    else if is_negative a
    then if is_negative b
      then ltb (magnitude b) (magnitude a)
      else not (eqb (magnitude a) 0 && eqb (magnitude b) 0)
    else if is_negative b
    then false
    else ltb (magnitude a) (magnitude b)

-- `a <= b`
unfoldable pub float_le : Float64 → Float64 → Bool
unfolding is_nan is_negative magnitude
float_le a b =
    if is_nan a || is_nan b
    then false
    else if is_negative a
    then if is_negative b then leb (magnitude b) (magnitude a) else true
    else if is_negative b
    then eqb (magnitude a) 0 && eqb (magnitude b) 0
    else leb (magnitude a) (magnitude b)

abbrev pub float_zero : Float64
float_zero = 0

-- 1000.0
abbrev pub float_thousand : Float64
float_thousand = 0x408F400000000000
