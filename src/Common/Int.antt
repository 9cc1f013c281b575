-- ===== src/Common/Int.antt =====
-- Go's signed `int` and `int64`, as far as the program compares them with numbers of things.

use Prim.Native.Nat.{ℕ, ◌+◌, ◌-◌, ◌^◌, ◌%◌}
use mathlib.Core.Bool.{Bool, true, false}
use vexlo.Common.Tests.{ltb, leb, if◌then◌else◌}

-- `negsuc n` is -(n + 1).
pub data ℤ : Type 0 where
  pos : ℕ → ℤ
  negsuc : ℕ → ℤ

-- a <= b, for b a number of things.
abbrev pub int_le : ℤ → ℕ → Bool
int_le (pos a) b = leb a b
int_le (negsuc a) b = true

-- a > b, for b a number of things.
abbrev pub int_gt : ℤ → ℕ → Bool
int_gt (pos a) b = ltb b a
int_gt (negsuc a) b = false

-- The number that a positive integer is; 0 for the others.
abbrev pub to_nat : ℤ → ℕ
to_nat (pos a) = a
to_nat (negsuc a) = 0

-- The int64 that has the bits of n.
abbrev pub of_bits : ℕ → ℤ
of_bits n = if ltb n (2 ^ 63) then pos n else negsuc (2 ^ 64 - 1 - n)

-- The 64 bits of an integer.
abbrev pub to_bits : ℤ → ℕ
to_bits (pos n) = n % 2 ^ 64
to_bits (negsuc n) = 2 ^ 64 - 1 - n % 2 ^ 64

-- a + b on int64, which wraps
abbrev pub add_int64 : ℤ → ℤ → ℤ
add_int64 a b = of_bits ((to_bits a + to_bits b) % 2 ^ 64)
