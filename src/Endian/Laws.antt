-- ===== src/Endian/Laws.antt =====
-- What a client of bpf_endian.h relies on, for both expansions of each macro.
use mathlib.Core.List.{reverse}
use defrizer.Common.{ℕ, ◌^◌, ◌<◌, ◌≡◌, refl, arith, List, Bool, true, false, ◌==◌}
use defrizer.Endian.{
  Endian, little, big, octets_of, builtin_bswap, bpf_constant_htons, bpf_runtime_htons, bpf_htons,
  bpf_ntohs, bpf_htonl, bpf_ntohl, bpf_cpu_to_be64, bpf_be64_to_cpu,
}
use defrizer.Endian.Swap.{swab16-eq-bswap, swab32-eq-bswap, swab64-eq-bswap}

bswap2-bswap2 : (x : ℕ) → x < 2 ^ 16 → builtin_bswap 2 (builtin_bswap 2 x) ≡ x
unfolding builtin_bswap
bswap2-bswap2 x h = omega arith

bswap4-bswap4 : (x : ℕ) → x < 2 ^ 32 → builtin_bswap 4 (builtin_bswap 4 x) ≡ x
unfolding builtin_bswap
bswap4-bswap4 x h = omega arith

bswap8-bswap8 : (x : ℕ) → x < 2 ^ 64 → builtin_bswap 8 (builtin_bswap 8 x) ≡ x
unfolding builtin_bswap
bswap8-bswap8 x h = omega arith

bswap2-lt : (x : ℕ) → builtin_bswap 2 x < 2 ^ 16
unfolding builtin_bswap
bswap2-lt x = omega arith

bswap4-lt : (x : ℕ) → builtin_bswap 4 x < 2 ^ 32
unfolding builtin_bswap
bswap4-lt x = omega arith

bswap8-lt : (x : ℕ) → builtin_bswap 8 x < 2 ^ 64
unfolding builtin_bswap
bswap8-lt x = omega arith

-- In 16 bits each macro is the builtin's swap or nothing, by the byte order alone.
swap16 : Endian → ℕ → ℕ
swap16 little x = builtin_bswap 2 x
swap16 big x = x

htons_lem : (e : Endian) (c : Bool) (x : ℕ) → x < 2 ^ 16 → bpf_htons e c x ≡ swap16 e x
unfolding bpf_htons bpf_constant_htons bpf_runtime_htons swap16
htons_lem little true x h = swab16-eq-bswap x h
htons_lem little false x h = refl
htons_lem big true x h = refl
htons_lem big false x h = refl

ntohs_lem : (e : Endian) (c : Bool) (x : ℕ) → x < 2 ^ 16 → bpf_ntohs e c x ≡ swap16 e x
unfolding bpf_ntohs bpf_constant_htons bpf_runtime_htons swap16
ntohs_lem little true x h = swab16-eq-bswap x h
ntohs_lem little false x h = refl
ntohs_lem big true x h = refl
ntohs_lem big false x h = refl

swap16-lt : (e : Endian) (x : ℕ) → x < 2 ^ 16 → swap16 e x < 2 ^ 16
unfolding swap16
swap16-lt little x h = bswap2-lt x
swap16-lt big x h = h

swap16-swap16 : (e : Endian) (x : ℕ) → x < 2 ^ 16 → swap16 e (swap16 e x) ≡ x
unfolding swap16
swap16-swap16 little x h = bswap2-bswap2 x h
swap16-swap16 big x h = refl

ntohs-htons : (e : Endian) (c d : Bool) (x : ℕ) → x < 2 ^ 16 → bpf_ntohs e c (bpf_htons e d x) ≡ x
ntohs-htons e c d x h =
    rw (htons_lem e d x h, ntohs_lem e c (swap16 e x) (swap16-lt e x h)) (swap16-swap16 e x h)

ntohl-htonl : (e : Endian) (c d : Bool) (x : ℕ) → x < 2 ^ 32 → bpf_ntohl e c (bpf_htonl e d x) ≡ x
unfolding bpf_htonl bpf_ntohl
ntohl-htonl big c d x h = refl
ntohl-htonl little c d x h = ground (
  arith,
  swab32-eq-bswap x h,
  swab32-eq-bswap (builtin_bswap 4 x) (bswap4-lt x),
  bswap4-bswap4 x h,
)

be64_to_cpu-cpu_to_be64 :
    (e : Endian) (c d : Bool) (x : ℕ) → x < 2 ^ 64 → bpf_be64_to_cpu e c (bpf_cpu_to_be64 e d x) ≡ x
unfolding bpf_cpu_to_be64 bpf_be64_to_cpu
be64_to_cpu-cpu_to_be64 big c d x h = refl
be64_to_cpu-cpu_to_be64 little c d x h = ground (
  arith,
  swab64-eq-bswap x h,
  swab64-eq-bswap (builtin_bswap 8 x) (bswap8-lt x),
  bswap8-bswap8 x h,
)

-- A number below 2^16, 2^32 or 2^64 comes back when it is converted to network order by `bpf_htons`,
-- `bpf_htonl` or `bpf_cpu_to_be64` and back by `bpf_ntohs`, `bpf_ntohl` or `bpf_be64_to_cpu`, on both
-- byte orders and whichever expansion, compile-time or run-time, each macro takes.
pub ntoh-hton :
    (e : Endian) (c d : Bool) (x y z : ℕ)
    → x < 2 ^ 16
    → y < 2 ^ 32
    → z < 2 ^ 64
    → (bpf_ntohs e c (bpf_htons e d x) ≡ x)
      × (bpf_ntohl e c (bpf_htonl e d y) ≡ y)
      × (bpf_be64_to_cpu e c (bpf_cpu_to_be64 e d z) ≡ z)
ntoh-hton e c d x y z hx hy hz =
    (ntohs-htons e c d x hx, ntohl-htonl e c d y hy, be64_to_cpu-cpu_to_be64 e c d z hz)

-- The octets of an `n`-octet value in the memory of a target, by address.
abbrev pub stored : Endian → ℕ → ℕ → List ℕ
stored little n x = octets_of n x
stored big n x = reverse (octets_of n x)

stored-htons :
    (e : Endian) (c : Bool) (x : ℕ)
    → x < 2 ^ 16
    → stored e 2 (bpf_htons e c x) ≡ reverse (octets_of 2 x)
unfolding swap16 builtin_bswap
stored-htons little c x h = rw (htons_lem little c x h) (ground arith)
stored-htons big c x h = rw (htons_lem big c x h)

stored-htonl :
    (e : Endian) (c : Bool) (x : ℕ)
    → x < 2 ^ 32
    → stored e 4 (bpf_htonl e c x) ≡ reverse (octets_of 4 x)
unfolding bpf_htonl builtin_bswap
stored-htonl little true x h = rw (swab32-eq-bswap x h) (ground arith)
stored-htonl little false x h = ground arith
stored-htonl big c x h = refl

stored-cpu_to_be64 :
    (e : Endian) (c : Bool) (x : ℕ)
    → x < 2 ^ 64
    → stored e 8 (bpf_cpu_to_be64 e c x) ≡ reverse (octets_of 8 x)
unfolding bpf_cpu_to_be64 builtin_bswap
stored-cpu_to_be64 little true x h = rw (swab64-eq-bswap x h) (ground arith)
stored-cpu_to_be64 little false x h = ground arith
stored-cpu_to_be64 big c x h = refl

-- What `bpf_htons`, `bpf_htonl` and `bpf_cpu_to_be64` return for a number below 2^16, 2^32 and 2^64
-- lies in memory with the highest octet first, on both byte orders and for both expansions.
pub stored-hton :
    (e : Endian) (c : Bool) (x y z : ℕ)
    → x < 2 ^ 16
    → y < 2 ^ 32
    → z < 2 ^ 64
    → (stored e 2 (bpf_htons e c x) ≡ reverse (octets_of 2 x))
      × (stored e 4 (bpf_htonl e c y) ≡ reverse (octets_of 4 y))
      × (stored e 8 (bpf_cpu_to_be64 e c z) ≡ reverse (octets_of 8 z))
stored-hton e c x y z hx hy hz =
    (stored-htons e c x hx, stored-htonl e c y hy, stored-cpu_to_be64 e c z hz)

-- A protocol number loaded from the wire equals a converted constant exactly when the two are the
-- same number in network order.
pub wire_test :
    (e : Endian) (n x : ℕ)
    → n < 2 ^ 16
    → x < 2 ^ 16
    → (bpf_runtime_htons e n == bpf_htons e true x) ≡ (n == x)
unfolding bpf_runtime_htons swap16
wire_test big n x hn hx = rw (htons_lem big true x hx)
wire_test little n x hn hx =
    rw (htons_lem little true x hx) (ground (arith, bswap2-bswap2 n hn, bswap2-bswap2 x hx))

pub ntohs-runtime_htons :
    (e : Endian) (x : ℕ) → x < 2 ^ 16 → bpf_ntohs e false (bpf_runtime_htons e x) ≡ x
unfolding bpf_runtime_htons bpf_ntohs
ntohs-runtime_htons little x h = bswap2-bswap2 x h
ntohs-runtime_htons big x h = refl
