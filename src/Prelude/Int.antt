-- ===== src/Prelude/Int.antt =====
-- C's 32-bit `int` and `uint32_t`. An `int` is an integer of ℤ in the range of 32 bits; a `uint32_t`
-- is a number below 2 ^ 32.
use Prim.Native.Nat.{ℕ, ◌-◌, ◌%◌, ◌^◌, ◌≤◌, ◌<◌}
use mathlib.Core.Path.{◌≡◌}
use mathlib.Core.Bool.{Bool, true, false}
use native.Mathlib.Omega.{arith}
use sistema_operativo.Prelude.Tests.{leb, if◌then◌else◌}

-- `negsuc n` is -(n + 1).
pub data ℤ : Type 0 where
  pos : ℕ → ℤ
  negsuc : ℕ → ℤ

abbrev pub uint_mod : ℕ
uint_mod = 2 ^ 32

-- The largest `int`, and the largest number whose negation is the smallest.
abbrev pub int_max : ℕ
int_max = 2 ^ 31 - 1

-- The cast `(int)w`: the integer that a 32-bit pattern stands for.
abbrev pub to_int : ℕ → ℤ
to_int w = if leb w int_max then pos w else negsuc (uint_mod - 1 - w)

-- The cast `(uint32_t)z`.
abbrev pub to_uint : ℤ → ℕ
to_uint (pos n) = n % uint_mod
to_uint (negsuc n) = uint_mod - 1 - n % uint_mod

-- The value lies in the range of `int`.
abbrev pub IsInt : ℤ → Type 0
IsInt (pos n) = n ≤ int_max
IsInt (negsuc n) = n ≤ int_max

abbrev pub is_negative : ℤ → Bool
is_negative (pos n) = false
is_negative (negsuc n) = true

pub to_int-to_uint : (z : ℤ) → IsInt z → to_int (to_uint z) ≡ z
to_int-to_uint (pos n) h = ground arith
to_int-to_uint (negsuc n) h = ground arith

pub to_int-IsInt : (w : ℕ) → w < uint_mod → IsInt (to_int w)
to_int-IsInt w h = ground arith
