-- ===== src/Common/Int.antt =====
-- The values of a C `int`, as whole numbers: `negsuc n` is -(n + 1).
use Prim.Native.Nat.{ℕ, ◌-◌, ◌%◌, ◌^◌}
use mathlib.Core.Bool.{Bool, true, false}
use defrizer.Common.Check.{ltb, ◌==◌, if◌then◌else◌}

pub data ℤ : Type 0 where
  pos : ℕ → ℤ
  negsuc : ℕ → ℤ

-- The -1 that the parsers return on a malformed header.
abbrev pub minus_one : ℤ
minus_one = negsuc 0

-- `x < 0`
abbrev pub is_negative : ℤ → Bool
is_negative (pos n) = false
is_negative (negsuc n) = true

-- `x == n`
infix 50 ◌==ℤ◌
abbrev pub ◌==ℤ◌ : ℤ → ℕ → Bool
pos m ==ℤ n = m == n
negsuc m ==ℤ n = false

-- The conversion of an unsigned value to a 32-bit `int`: its low 32 bits, read in two's complement.
abbrev pub to_int : ℕ → ℤ
to_int n = let w = n % 2 ^ 32 in if ltb w (2 ^ 31) then pos w else negsuc (2 ^ 32 - w - 1)
