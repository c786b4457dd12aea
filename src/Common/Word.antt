-- ===== src/Common/Word.antt =====
-- Machine words as native numbers: casts cut off high bits, shifts and pointer sums wrap.
use Prim.Native.Nat.{ℕ, ◌+◌, ◌%◌, ◌^◌, ◌<◌}
use mathlib.Core.Path.{◌≡◌}
use native.Mathlib.Omega.{arith}

abbrev pub u16 : ℕ → ℕ
u16 n = n % 2 ^ 16

abbrev pub u32 : ℕ → ℕ
u32 n = n % 2 ^ 32

abbrev pub u64 : ℕ → ℕ
u64 n = n % 2 ^ 64

-- A sum of a 64-bit pointer and a number of bytes.
unfoldable pub ptr_add : ℕ → ℕ → ℕ
ptr_add p n = u64 (p + n)

pub ptr_add_lem : (p n : ℕ) → p + n < 2 ^ 64 → ptr_add p n ≡ p + n
unfolding ptr_add
ptr_add_lem p n h = omega arith
