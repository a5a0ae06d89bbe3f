-- ===== src/Common/Int.antt =====
-- Go's signed integers, over the native numbers; `negsuc n` is -(n + 1).
use casdoor_aiguard.Common.Tests.{ltb}
use mathlib.Core.Bool.{Bool, false}
use Prim.Native.Nat.{ℕ}

pub data ℤ : Type 0 where
  pos : ℕ → ℤ
  negsuc : ℕ → ℤ

-- `n > 0`
abbrev pub is_positive : ℤ → Bool
is_positive (pos n) = ltb 0 n
is_positive (negsuc n) = false

-- The number itself where it is positive.
abbrev pub pos_part : ℤ → ℕ
pos_part (pos n) = n
pos_part (negsuc n) = 0
