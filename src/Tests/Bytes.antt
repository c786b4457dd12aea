-- ===== src/Tests/Bytes.antt =====
-- The byte-order macros at concrete numbers.
use mathlib.Core.List.{reverse}
use defrizer.Common.{◌≡◌, refl, arith, true, false}
use defrizer.Endian.{
  little, octets_of, bpf_swab16, bpf_swab32, bpf_swab64, builtin_bswap, bpf_htons, bpf_ntohs,
  bpf_htonl, bpf_ntohl, bpf_cpu_to_be64, bpf_be64_to_cpu,
}
use defrizer.Endian.Swap.{swab-eq-bswap}
use defrizer.Endian.Laws.{stored, ntoh-hton, stored-hton}

ipv4_swapped : bpf_swab16 0x0800 ≡ 0x0008
unfolding bpf_swab16
ipv4_swapped = refl

eight_swapped : bpf_swab64 0x0102030405060708 ≡ 0x0807060504030201
unfolding bpf_swab64
eight_swapped = refl

swab-eq-bswap_example :
    (bpf_swab16 0x86dd ≡ builtin_bswap 2 0x86dd)
    × (bpf_swab32 0x01020304 ≡ builtin_bswap 4 0x01020304)
    × (bpf_swab64 0x0102030405060708 ≡ builtin_bswap 8 0x0102030405060708)
swab-eq-bswap_example =
    swab-eq-bswap 0x86dd 0x01020304 0x0102030405060708 (omega arith) (omega arith) (omega arith)

ntoh-hton_example :
    (bpf_ntohs little false (bpf_htons little true 7777) ≡ 7777)
    × (bpf_ntohl little false (bpf_htonl little true 0x0a000001) ≡ 0x0a000001)
    × (bpf_be64_to_cpu little false (bpf_cpu_to_be64 little true 0x0102030405060708)
        ≡ 0x0102030405060708)
ntoh-hton_example =
    ntoh-hton little false true 7777 0x0a000001 0x0102030405060708 (omega arith) (omega arith)
      (omega arith)

stored-hton_example :
    (stored little 2 (bpf_htons little true 7777) ≡ reverse (octets_of 2 7777))
    × (stored little 4 (bpf_htonl little true 0x0a000001) ≡ reverse (octets_of 4 0x0a000001))
    × (stored little 8 (bpf_cpu_to_be64 little true 0x0102030405060708)
        ≡ reverse (octets_of 8 0x0102030405060708))
stored-hton_example =
    stored-hton little true 7777 0x0a000001 0x0102030405060708 (omega arith) (omega arith)
      (omega arith)
