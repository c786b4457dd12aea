-- ===== src/Common/Bits.antt =====
-- `|` of disjoint fields and `&` with a mask of low bits, as arithmetic.
mod Digits
use Digits.{bit_or_halves, bit_and_halves}
use Prim.Native.Nat.{ℕ, zero, suc, ◌+◌, ◌-◌, ◌*◌, ◌/◌, ◌%◌, ◌^◌, ◌≤◌, ◌<◌, bit_and, bit_or}
use mathlib.Core.Path.{◌≡◌, refl, ap}
use native.Mathlib.Nat.{pow-suc, one-le-pow}
use native.Mathlib.Omega.{arith}

bit_or-zero_below : (n a : ℕ) → a ≤ n → bit_or a 0 ≡ a
bit_or-zero_below n zero h = refl
bit_or-zero_below zero (suc a) h = absurd (omega arith)
bit_or-zero_below (suc n) (suc a) h =
    omega (arith, bit_or_halves (suc a) 0, bit_or-zero_below n (suc a / 2) (omega arith))

bit_and-zero_below : (n a : ℕ) → a ≤ n → bit_and a 0 ≡ 0
bit_and-zero_below n zero h = refl
bit_and-zero_below zero (suc a) h = absurd (omega arith)
bit_and-zero_below (suc n) (suc a) h =
    omega (arith, bit_and_halves (suc a) 0, bit_and-zero_below n (suc a / 2) (omega arith))

-- Fields that do not overlap: `hi` above the `k` bits of `lo`.
pub bit_or_disjoint : (k hi lo : ℕ) → lo < 2 ^ k → bit_or (hi * 2 ^ k) lo ≡ hi * 2 ^ k + lo
bit_or_disjoint zero hi lo h = ground (arith, bit_or-zero_below hi hi)
bit_or_disjoint (suc k) hi lo h = ground (
  arith,
  bit_or_halves (hi * 2 ^ suc k) lo,
  ap (λ (t : ℕ). hi * t) (pow-suc 2 k),
  bit_or_disjoint k hi (lo / 2) (omega arith),
)

-- The mask `2 ^ k - 1` keeps the low `k` bits.
pub bit_and_low : (k hi lo : ℕ) → lo < 2 ^ k → bit_and (hi * 2 ^ k + lo) (2 ^ k - 1) ≡ lo
bit_and_low zero hi lo h =
    omega (arith, bit_and-zero_below (hi * 2 ^ 0 + lo) (hi * 2 ^ 0 + lo) (omega arith))
bit_and_low (suc k) hi lo h = ground (
  arith,
  bit_and_halves (hi * 2 ^ suc k + lo) (2 ^ suc k - 1),
  ap (λ (t : ℕ). hi * t) (pow-suc 2 k),
  pow-suc 2 k,
  one-le-pow k 2,
  bit_and_low k hi (lo / 2) (omega arith),
)
