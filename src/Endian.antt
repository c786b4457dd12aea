-- ===== src/Endian.antt =====
-- Byte order: the macros of include/bpf/bpf_endian.h. The header is compiled once for a
-- little-endian and once for a big-endian BPF target (`__BYTE_ORDER__`).
pub mod Swap
pub mod Laws
use mathlib.Core.List.{reverse}
use defrizer.Common.{
  ℕ, zero, suc, ◌+◌, ◌-◌, ◌*◌, ◌/◌, ◌%◌, ◌^◌, bit_or, List, [], ◌∷◌, Bool, u16, u32, u64,
  if◌then◌else◌,
}

pub data Endian : Type 0 where
  little big : Endian

-- The octets of a number, lowest first, and back: what the compiler's `__builtin_bswapX` permute.
unfoldable pub octets_of : ℕ → ℕ → List ℕ
octets_of zero x = []
octets_of (suc n) x = x % 256 ∷ octets_of n (x / 256)

unfoldable pub of_octets : List ℕ → ℕ
of_octets [] = 0
of_octets (b ∷ bs) = b + 256 * of_octets bs

-- `__builtin_bswap16`, `32` and `64` for `n` = 2, 4 and 8.
unfoldable pub builtin_bswap : ℕ → ℕ → ℕ
unfolding octets_of of_octets
builtin_bswap n x = of_octets (reverse (octets_of n x))

-- `x << k` in a type of `w` bits, and `x >> k`.
abbrev shl : ℕ → ℕ → ℕ → ℕ
shl w x k = x * 2 ^ k % 2 ^ w

abbrev shr : ℕ → ℕ → ℕ
shr x k = x / 2 ^ k

-- `___bpf_mvb(x, b, n, m)`. The cast gives `b` bits; the shifts are made at the width `w` of the
-- promoted type, 32 bits for a `__u16`.
abbrev pub bpf_mvb : ℕ → ℕ → ℕ → ℕ → ℕ → ℕ
bpf_mvb w x b n m = shl w (shr (shl w (x % 2 ^ b) (b - (n + 1) * 8)) (b - 8)) (m * 8)

unfoldable pub bpf_swab16 : ℕ → ℕ
bpf_swab16 x = u16 (bit_or (bpf_mvb 32 x 16 0 1) (bpf_mvb 32 x 16 1 0))

unfoldable pub bpf_swab32 : ℕ → ℕ
bpf_swab32 x = u32 (
    bit_or (bit_or (bit_or (bpf_mvb 32 x 32 0 3) (bpf_mvb 32 x 32 1 2)) (bpf_mvb 32 x 32 2 1))
      (bpf_mvb 32 x 32 3 0))

-- The first four and the last four terms of `___bpf_swab64`.
abbrev swab64_upper : ℕ → ℕ
swab64_upper x =
    bit_or (bit_or (bit_or (bpf_mvb 64 x 64 0 7) (bpf_mvb 64 x 64 1 6)) (bpf_mvb 64 x 64 2 5))
      (bpf_mvb 64 x 64 3 4)

unfoldable pub bpf_swab64 : ℕ → ℕ
bpf_swab64 x = u64 (
    bit_or
      (bit_or (bit_or (bit_or (swab64_upper x) (bpf_mvb 64 x 64 4 3)) (bpf_mvb 64 x 64 5 2))
        (bpf_mvb 64 x 64 6 1))
      (bpf_mvb 64 x 64 7 0))

-- `__bpf_constant_htons` and `__bpf_htons`: what `bpf_htons` expands to for a compile-time
-- constant and for any other argument. `bpf_ntohs` expands to the same.
unfoldable pub bpf_constant_htons : Endian → ℕ → ℕ
bpf_constant_htons little x = bpf_swab16 x
bpf_constant_htons big x = x

unfoldable pub bpf_runtime_htons : Endian → ℕ → ℕ
bpf_runtime_htons little x = builtin_bswap 2 x
bpf_runtime_htons big x = x

-- `bpf_htons`; the flag is `__builtin_constant_p(x)`.
unfoldable pub bpf_htons : Endian → Bool → ℕ → ℕ
bpf_htons e constant x = if constant then bpf_constant_htons e x else bpf_runtime_htons e x

unfoldable pub bpf_ntohs : Endian → Bool → ℕ → ℕ
bpf_ntohs e constant x = if constant then bpf_constant_htons e x else bpf_runtime_htons e x

-- The same for 32 and for 64 bits.
unfoldable pub bpf_htonl : Endian → Bool → ℕ → ℕ
bpf_htonl little constant x = if constant then bpf_swab32 x else builtin_bswap 4 x
bpf_htonl big constant x = x

unfoldable pub bpf_ntohl : Endian → Bool → ℕ → ℕ
bpf_ntohl little constant x = if constant then bpf_swab32 x else builtin_bswap 4 x
bpf_ntohl big constant x = x

unfoldable pub bpf_cpu_to_be64 : Endian → Bool → ℕ → ℕ
bpf_cpu_to_be64 little constant x = if constant then bpf_swab64 x else builtin_bswap 8 x
bpf_cpu_to_be64 big constant x = x

unfoldable pub bpf_be64_to_cpu : Endian → Bool → ℕ → ℕ
bpf_be64_to_cpu little constant x = if constant then bpf_swab64 x else builtin_bswap 8 x
bpf_be64_to_cpu big constant x = x
