-- ===== src/Parse/Bounds.antt =====
-- How far the parsers of tcp_syn_kern.h move the cursor.
use defrizer.Common.{
  ℕ, zero, suc, ◌+◌, ◌*◌, ◌≤◌, ◌≡◌, refl, arith, inl, inr, List, Option, none, some, Bool, ◌&&◌,
  leb, Bool-cases, length, drop, ptr_add, ptr_add_lem, pos, minus_one, ◌-◌, if◌then◌else◌,
}
use defrizer.Endian.{Endian, bpf_runtime_htons}
use defrizer.Uapi.{Uapi, IsLayout}
use defrizer.Memory.{XdpMd, IsPlaced, data_end}
use defrizer.Memory.Laws.{At, length-drop}
use defrizer.Spec.Layers.{
  Layer, octet, be16, is_vlan, strip_vlans, ethernet, ipv4_length, ipv4, ipv6, tcp_length,
  tcp_is_whole,
}
use defrizer.Parse.{
  Parsed, failed, parse_ethhdr, parse_iphdr, parse_ip6hdr, parse_tcphdr, parse_udphdr,
}
use defrizer.Parse.Refine.{
  Reads, behind, parse_iphdr-Reads, parse_ip6hdr-Reads, parse_tcphdr_lem, parse_udphdr_lem,
}
use defrizer.Parse.Link.{parse_ethhdr-Reads}

-- A parser at `nh` returns with a cursor that has not moved back, by at most `limit` octets forward,
-- and that still lies in the packet or at its end.
abbrev pub Moves : XdpMd → ℕ → ℕ → Option Parsed → Type 0
Moves md nh limit r =
    (p : Parsed) × (r ≡ some p)
    × (nh ≤ p.cursor)
    × (p.cursor ≤ nh + limit)
    × (p.cursor ≤ data_end md)

-- `l` is what a layer leaves of the octets `xs`: all but `limit` of them at most.
abbrev Leaves : List ℕ → ℕ → Option Layer → Type 0
Leaves xs limit none = Unit {0}
Leaves xs limit (some (p, rest)) = (length rest ≤ length xs) × (length xs ≤ length rest + limit)

strip_vlans_bounds :
    (u : Uapi) (depth p : ℕ) (xs : List ℕ)
    → Leaves xs (depth * 4) (some (strip_vlans u depth (p, xs)))
unfolding strip_vlans
strip_vlans_bounds u zero p xs = omega arith
strip_vlans_bounds u (suc depth) p xs = elim (Bool-cases (is_vlan u p && leb 4 (length xs))) [
  | inl tag ↦
      rw (tag, strip_vlans)
        (omega (arith, strip_vlans_bounds u depth (be16 xs 2) (drop 4 xs), length-drop 4 xs))
  | inr no_tag ↦ rw (no_tag, strip_vlans) (omega arith)
]

abbrev whole_v4 : Uapi → List ℕ → Bool
whole_v4 u xs =
    leb u.sizeof_iphdr (length xs)
    && (leb u.sizeof_iphdr (ipv4_length u xs) && leb (ipv4_length u xs) (length xs))

module _ {u : Uapi} {md : XdpMd} (layout : IsLayout u) (placed : IsPlaced md) {nh : ℕ} {xs : List ℕ}
    (here : At md nh xs) where
  Reads-Moves :
      (ret : ℕ → ℕ) (limit : ℕ) (l : Option Layer) (r : Option Parsed)
      → Reads ret md nh l r
      → Leaves xs limit l
      → Moves md nh limit r
  Reads-Moves ret limit none r h leaves =
      (failed nh, h, omega (arith, here.ends), omega arith, omega (arith, here.ends))
  Reads-Moves ret limit (some (p, rest)) r (q, h, stands) leaves = (
    record { ret = pos (ret p); cursor = q; hdr = some nh },
    h,
    omega (arith, here.ends, stands.ends),
    omega (arith, here.ends, stands.ends),
    omega (arith, here.ends, stands.ends),
  )

  ethernet-Leaves : Leaves xs (u.sizeof_ethhdr + 8) (ethernet u xs)
  unfolding ethernet
  ethernet-Leaves = elim (Bool-cases (leb u.sizeof_ethhdr (length xs))) [
    | inl h ↦
        let enough : u.sizeof_ethhdr ≤ length xs = ground arith in
        let body = drop u.sizeof_ethhdr xs in
        rw h (
          omega (
            arith,
            strip_vlans_bounds u 2 (be16 xs u.ethhdr_h_proto) body,
            length-drop u.sizeof_ethhdr xs,
          ))
    | inr h ↦ rw h tt
  ]

  ipv4-Leaves : Leaves xs 60 (ipv4 u xs)
  unfolding ipv4 ipv4_length
  ipv4-Leaves = elim (Bool-cases (whole_v4 u xs)) [
    | inl h ↦
        let n = u.iphdr_ihl (octet xs u.iphdr_ihl_at) * 4 in
        let enough : n ≤ length xs = ground arith in
        rw h (omega (arith, layout.ihl_lt (octet xs u.iphdr_ihl_at), length-drop n xs))
    | inr h ↦ rw h tt
  ]

  ipv6-Leaves : Leaves xs u.sizeof_ipv6hdr (ipv6 u xs)
  unfolding ipv6
  ipv6-Leaves = elim (Bool-cases (leb u.sizeof_ipv6hdr (length xs))) [
    | inl h ↦
        let enough : u.sizeof_ipv6hdr ≤ length xs = ground arith in
        rw h (omega (arith, length-drop u.sizeof_ipv6hdr xs))
    | inr h ↦ rw h tt
  ]

  behind-Moves :
      (n limit ret : ℕ) (r : Option Parsed)
      → r ≡ some (behind nh n ret)
      → n ≤ length xs
      → n ≤ limit
      → Moves md nh limit r
  behind-Moves n limit ret r h inside small = (
    behind nh n ret,
    h,
    omega (arith, here.ends, ptr_add_lem nh n),
    omega (arith, here.ends, ptr_add_lem nh n),
    omega (arith, here.ends, ptr_add_lem nh n),
  )

  stays-Moves : (limit : ℕ) (r : Option Parsed) → r ≡ some (failed nh) → Moves md nh limit r
  stays-Moves limit r h =
      (failed nh, h, omega (arith, here.ends), omega arith, omega (arith, here.ends))

  tcp-Moves : Moves md nh 60 (parse_tcphdr u md nh)
  tcp-Moves = elim (Bool-cases (tcp_is_whole u xs)) [
    | inl h ↦
        let n = tcp_length u xs in
        behind-Moves n 60 n (parse_tcphdr u md nh)
          (rw (parse_tcphdr_lem layout placed here, h) refl) (unfold tcp_is_whole in ground arith)
          (unfold tcp_length in omega (arith, layout.doff_lt (octet xs u.tcphdr_doff_at)))
    | inr h ↦
        stays-Moves 60 (parse_tcphdr u md nh) (rw (parse_tcphdr_lem layout placed here, h) refl)
  ]

  udp-Moves : (e : Endian) → Moves md nh u.sizeof_udphdr (parse_udphdr u e md nh)
  udp-Moves e = elim (Bool-cases (leb u.sizeof_udphdr (length xs))) [
    | inl h ↦
        let enough : u.sizeof_udphdr ≤ length xs = ground arith in
        let payload =
          if leb u.sizeof_udphdr (be16 xs u.udphdr_len)
          then pos (be16 xs u.udphdr_len - u.sizeof_udphdr)
          else minus_one in
        (
          record { ret = payload; cursor = ptr_add nh u.sizeof_udphdr; hdr = some nh },
          rw (parse_udphdr_lem layout placed here e, h) refl,
          omega (arith, here.ends, ptr_add_lem nh u.sizeof_udphdr),
          omega (arith, here.ends, ptr_add_lem nh u.sizeof_udphdr),
          omega (arith, here.ends, ptr_add_lem nh u.sizeof_udphdr),
        )
    | inr h ↦
        stays-Moves u.sizeof_udphdr (parse_udphdr u e md nh)
          (rw (parse_udphdr_lem layout placed here e, h) refl)
  ]

  -- With header sizes and offsets as `IsLayout` has them and the packet placed as `IsPlaced` says,
  -- from a cursor before the packet's last octets `xs`, every parser returns, and the cursor then
  -- lies no earlier than before and no later than the packet's end; it has moved by at most an
  -- Ethernet header and two VLAN tags, by at most 60 octets for IPv4 and for TCP, and by at most the
  -- header's size for IPv6 and UDP.
  pub cursor_bounds :
      (e : Endian)
      → Moves md nh (u.sizeof_ethhdr + 8) (parse_ethhdr u e md nh)
        × Moves md nh 60 (parse_iphdr u md nh)
        × Moves md nh u.sizeof_ipv6hdr (parse_ip6hdr u md nh)
        × Moves md nh 60 (parse_tcphdr u md nh)
        × Moves md nh u.sizeof_udphdr (parse_udphdr u e md nh)
  cursor_bounds e = (
    Reads-Moves (bpf_runtime_htons e) (u.sizeof_ethhdr + 8) (ethernet u xs) (parse_ethhdr u e md nh)
        (parse_ethhdr-Reads e layout placed here) ethernet-Leaves,
    Reads-Moves (λ p. p) 60 (ipv4 u xs) (parse_iphdr u md nh) (parse_iphdr-Reads layout placed here)
        ipv4-Leaves,
    Reads-Moves (λ p. p) u.sizeof_ipv6hdr (ipv6 u xs) (parse_ip6hdr u md nh)
        (parse_ip6hdr-Reads layout placed here) ipv6-Leaves,
    tcp-Moves,
    udp-Moves e,
  )
