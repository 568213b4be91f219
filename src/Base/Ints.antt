-- ===== src/Base/Ints.antt =====
-- The results of C functions: integers of either sign.
use Prim.Native.Nat.{ℕ, ◌-◌, ◌%◌, ◌^◌}
use mathlib.Core.Bool.{Bool, true, false}
use vlbi_streamer.Base.Tests.{ltb, leb, if◌then◌else◌}

pub data ℤ : Type 0 where
  pos : ℕ → ℤ
  negsuc : ℕ → ℤ

-- The `int` with a 32-bit pattern.
abbrev pub int_of_pattern : ℕ → ℤ
int_of_pattern w = if ltb w (2 ^ 31) then pos w else negsuc (2 ^ 32 - 1 - w)

-- A `long` that is stored in an `int`.
abbrev pub int_of_long : ℤ → ℤ
int_of_long (pos n) = int_of_pattern (n % 2 ^ 32)
int_of_long (negsuc n) = int_of_pattern (2 ^ 32 - 1 - n % 2 ^ 32)

-- The `long` with a 64-bit pattern.
abbrev pub long_of_pattern : ℕ → ℤ
long_of_pattern w = if ltb w (2 ^ 63) then pos w else negsuc (2 ^ 64 - 1 - w)

abbrev pub int_leb : ℤ → ℤ → Bool
int_leb (pos m) (pos n) = leb m n
int_leb (pos m) (negsuc n) = false
int_leb (negsuc m) (pos n) = true
int_leb (negsuc m) (negsuc n) = leb n m

abbrev pub int_ltb : ℤ → ℤ → Bool
int_ltb (pos m) (pos n) = ltb m n
int_ltb (pos m) (negsuc n) = false
int_ltb (negsuc m) (pos n) = true
int_ltb (negsuc m) (negsuc n) = ltb n m
