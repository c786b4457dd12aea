-- ===== src/Endian/Swap.antt =====
-- The shift-and-mask swaps of bpf_endian.h against the compiler's builtins.
use defrizer.Common.{ℕ, ◌+◌, ◌*◌, ◌/◌, ◌%◌, ◌^◌, ◌<◌, ◌≡◌, arith, bit_or}
use defrizer.Common.Bits.{bit_or_disjoint}
use defrizer.Endian.{bpf_swab16, bpf_swab32, bpf_swab64, builtin_bswap, bpf_mvb, swab64_upper}

-- `a | b` is a sum where `a` is a multiple of `2 ^ k` and `b` lies below it.
or_above : (k q : ℕ) {a b : ℕ} → a ≡ q * 2 ^ k → b < 2 ^ k → bit_or a b ≡ a + b
or_above k q {b = b} e h = rw e (bit_or_disjoint k q b h)

-- The shift-and-mask swap `___bpf_swab16` of a number below 2^16 is the swap that the compiler's
-- builtin makes, octet for octet.
pub swab16-eq-bswap : (x : ℕ) → x < 2 ^ 16 → bpf_swab16 x ≡ builtin_bswap 2 x
unfolding bpf_swab16 builtin_bswap
swab16-eq-bswap x h = omega (
  arith,
  or_above 8 x {a = bpf_mvb 32 x 16 0 1} {b = bpf_mvb 32 x 16 1 0} (omega arith) (omega arith),
)

-- The shift-and-mask swap `___bpf_swab32` of a number below 2^32 is the swap that the compiler's
-- builtin makes, octet for octet.
pub swab32-eq-bswap : (x : ℕ) → x < 2 ^ 32 → bpf_swab32 x ≡ builtin_bswap 4 x
unfolding bpf_swab32 builtin_bswap
swab32-eq-bswap x h =
    let t0 = bpf_mvb 32 x 32 0 3 in
    let t1 = bpf_mvb 32 x 32 1 2 in
    let t2 = bpf_mvb 32 x 32 2 1 in
    let t3 = bpf_mvb 32 x 32 3 0 in
    let s1 = or_above 24 (x % 256) {a = t0} {b = t1} (omega arith) (omega arith) in
    let s2 =
      or_above 16 ((t0 + t1) / 2 ^ 16) {a = bit_or t0 t1} {b = t2} (omega (arith, s1))
        (omega arith) in
    let s3 =
      or_above 8 ((t0 + t1 + t2) / 2 ^ 8) {a = bit_or (bit_or t0 t1) t2} {b = t3}
        (omega (arith, s1, s2)) (omega arith) in
    omega (arith, s1, s2, s3)

-- One term of `___bpf_swab64`: octet `n` of `x`, moved to place `m`.
abbrev term64 : ℕ → ℕ → ℕ → ℕ
term64 x n m = bpf_mvb 64 x 64 n m

upper_sum :
    (x : ℕ)
    → x < 2 ^ 64
    → swab64_upper x ≡ term64 x 0 7 + term64 x 1 6 + term64 x 2 5 + term64 x 3 4
upper_sum x h =
    let t0 = term64 x 0 7 in
    let t1 = term64 x 1 6 in
    let t2 = term64 x 2 5 in
    let t3 = term64 x 3 4 in
    let s1 = or_above 56 (x % 256) {a = t0} {b = t1} (omega arith) (omega arith) in
    let s2 =
      or_above 48 ((t0 + t1) / 2 ^ 48) {a = bit_or t0 t1} {b = t2} (omega (arith, s1))
        (omega arith) in
    let s3 =
      or_above 40 ((t0 + t1 + t2) / 2 ^ 40) {a = bit_or (bit_or t0 t1) t2} {b = t3}
        (omega (arith, s1, s2)) (omega arith) in
    omega (arith, s1, s2, s3)

-- The four lower terms, merged below a multiple of `2 ^ 32`.
lower_sum :
    (x q : ℕ) {a : ℕ}
    → x < 2 ^ 64
    → a ≡ q * 2 ^ 32
    → bit_or
        (bit_or (bit_or (bit_or a (term64 x 4 3)) (term64 x 5 2)) (term64 x 6 1))
        (term64 x 7 0)
      ≡ a + term64 x 4 3 + term64 x 5 2 + term64 x 6 1 + term64 x 7 0
lower_sum x q {a} h e =
    let t4 = term64 x 4 3 in
    let t5 = term64 x 5 2 in
    let t6 = term64 x 6 1 in
    let t7 = term64 x 7 0 in
    let s4 = or_above 32 q {a = a} {b = t4} e (omega arith) in
    let s5 =
      or_above 24 ((a + t4) / 2 ^ 24) {a = bit_or a t4} {b = t5} (omega (arith, s4))
        (omega arith) in
    let s6 =
      or_above 16 ((a + t4 + t5) / 2 ^ 16) {a = bit_or (bit_or a t4) t5} {b = t6}
        (omega (arith, s4, s5)) (omega arith) in
    let s7 =
      or_above 8 ((a + t4 + t5 + t6) / 2 ^ 8) {a = bit_or (bit_or (bit_or a t4) t5) t6} {b = t7}
        (omega (arith, s4, s5, s6)) (omega arith) in
    omega (arith, s4, s5, s6, s7)

-- The shift-and-mask swap `___bpf_swab64` of a number below 2^64 is the swap that the compiler's
-- builtin makes, octet for octet.
pub swab64-eq-bswap : (x : ℕ) → x < 2 ^ 64 → bpf_swab64 x ≡ builtin_bswap 8 x
unfolding bpf_swab64 builtin_bswap
swab64-eq-bswap x h =
    let q = swab64_upper x / 2 ^ 32 in
    omega
      (arith, upper_sum x h, lower_sum x q {a = swab64_upper x} h (omega (arith, upper_sum x h)))

-- The shift-and-mask swaps `___bpf_swab16`, `___bpf_swab32` and `___bpf_swab64` of numbers of 16, 32
-- and 64 bits are the swaps that the compiler's builtins make, octet for octet.
pub swab-eq-bswap :
    (x y z : ℕ)
    → x < 2 ^ 16
    → y < 2 ^ 32
    → z < 2 ^ 64
    → (bpf_swab16 x ≡ builtin_bswap 2 x)
      × (bpf_swab32 y ≡ builtin_bswap 4 y)
      × (bpf_swab64 z ≡ builtin_bswap 8 z)
swab-eq-bswap x y z hx hy hz = (swab16-eq-bswap x hx, swab32-eq-bswap y hy, swab64-eq-bswap z hz)
