-- ===== src/Prelude/Int.antt =====
-- Go's signed int, where the code compares it with constants.
use Prim.Native.Nat.{ℕ, ◌-◌, ◌%◌}
use mathlib.Core.Bool.{Bool, true, false}
use byte_battle.Prelude.Tests.{ltb, leb}

-- `negsuc n` is -(n + 1).
pub data ℤ : Type 0 where
  pos : ℕ → ℤ
  negsuc : ℕ → ℤ

abbrev pub is_negative : ℤ → Bool
is_negative (pos _) = false
is_negative (negsuc _) = true

-- x <= 0
abbrev pub is_at_most_zero : ℤ → Bool
is_at_most_zero (pos n) = leb n 0
is_at_most_zero (negsuc _) = true

-- x > n
abbrev pub exceeds : ℤ → ℕ → Bool
exceeds (pos m) n = ltb n m
exceeds (negsuc _) n = false

-- The bit pattern of int32(x).
abbrev pub int32_of : ℤ → ℕ
int32_of (pos n) = n % 4294967296
int32_of (negsuc n) = 4294967295 - n % 4294967296
