-- ===== src/Parse/Refine.antt =====
-- The parsers of tcp_syn_kern.h for IPv4, IPv6, UDP and TCP against the layers of the specification.
use defrizer.Common.{
  ℕ, ◌-◌, ◌*◌, ◌≡◌, refl, arith, inl, inr, List, Bool, ◌&&◌, Option, none, some, leb, Bool-cases,
  length, ptr_add, if◌then◌else◌, pos, minus_one,
}
use defrizer.Endian.{Endian}
use defrizer.Endian.Laws.{ntohs-runtime_htons}
use defrizer.Uapi.{Uapi, IsLayout}
use defrizer.Memory.{XdpMd, IsPlaced}
use defrizer.Memory.Laws.{At, bound-At, load8-At, load16-At, drop-At, be16-lt}
use defrizer.Spec.Layers.{Layer, octet, be16, ipv4_length, ipv4, ipv6, tcp_length, tcp_is_whole}
use defrizer.Parse.{Parsed, failed, parse_iphdr, parse_ip6hdr, parse_tcphdr, parse_udphdr}

-- `r` is the parse of the layer `l` at `nh`. `ret` says how the protocol number is returned.
abbrev pub Reads : (ℕ → ℕ) → XdpMd → ℕ → Option Layer → Option Parsed → Type 0
Reads ret md nh none r = r ≡ some (failed nh)
Reads ret md nh (some (p, rest)) r =
    (q : ℕ) × (r ≡ some (record { ret = pos (ret p); cursor = q; hdr = some nh })) × At md q rest

-- `nh` moved by `n` octets, behind a header that starts at `nh`.
abbrev pub behind : ℕ → ℕ → ℕ → Parsed
behind nh n ret = record { ret = pos ret; cursor = ptr_add nh n; hdr = some nh }

module _ {u : Uapi} {md : XdpMd} (layout : IsLayout u) (placed : IsPlaced md) {nh : ℕ}
    {rest : List ℕ} (here : At md nh rest) where
  abbrev whole_v4 : Bool
  whole_v4 =
      leb u.sizeof_iphdr (length rest)
      && (leb u.sizeof_iphdr (ipv4_length u rest) && leb (ipv4_length u rest) (length rest))

  parse_iphdr_lem : parse_iphdr u md nh ≡ (
      if whole_v4
      then some (behind nh (ipv4_length u rest) (octet rest u.iphdr_protocol))
      else some (failed nh))
  unfolding parse_iphdr ipv4_length
  parse_iphdr_lem = ground (
    arith,
    bound-At placed here u.sizeof_iphdr,
    bound-At placed here (u.iphdr_ihl (octet rest u.iphdr_ihl_at) * 4),
    load8-At placed here u.iphdr_ihl_at,
    load8-At placed here u.iphdr_protocol,
    layout.ihl_lt (octet rest u.iphdr_ihl_at),
    layout.ihl_in,
    layout.protocol_in,
    layout.iphdr_small,
  )

  -- With header sizes and offsets as `IsLayout` has them and the packet placed as `IsPlaced` says,
  -- and a cursor before the packet's last octets `rest`: `parse_iphdr` reads no octet outside the
  -- packet. With at least a base header there, a length field of at least its size and no more than
  -- the octets left, it returns the protocol and moves behind the header, options included; else it
  -- returns -1 and moves nothing.
  pub parse_iphdr-Reads : Reads (λ p. p) md nh (ipv4 u rest) (parse_iphdr u md nh)
  unfolding ipv4
  parse_iphdr-Reads = elim (Bool-cases whole_v4) [
    | inl h ↦
        rw (parse_iphdr_lem, h)
          (
            ptr_add nh (ipv4_length u rest),
            refl,
            drop-At placed here (ipv4_length u rest) (ground arith),
          )
    | inr h ↦ rw (parse_iphdr_lem, h) refl
  ]

  parse_ip6hdr_lem : parse_ip6hdr u md nh ≡ (
      if leb u.sizeof_ipv6hdr (length rest)
      then some (behind nh u.sizeof_ipv6hdr (octet rest u.ipv6hdr_nexthdr))
      else some (failed nh))
  unfolding parse_ip6hdr
  parse_ip6hdr_lem = ground (
    arith,
    bound-At placed here u.sizeof_ipv6hdr,
    load8-At placed here u.ipv6hdr_nexthdr,
    layout.nexthdr_in,
    layout.ipv6hdr_small,
  )

  -- With header sizes and offsets as `IsLayout` has them and the packet placed as `IsPlaced` says,
  -- and a cursor before the packet's last octets `rest`: `parse_ip6hdr` reads no octet outside the
  -- packet. With a whole fixed header there it returns the next-header number and moves behind it;
  -- else it returns -1 and moves nothing.
  pub parse_ip6hdr-Reads : Reads (λ p. p) md nh (ipv6 u rest) (parse_ip6hdr u md nh)
  unfolding ipv6
  parse_ip6hdr-Reads = elim (Bool-cases (leb u.sizeof_ipv6hdr (length rest))) [
    | inl h ↦
        rw (parse_ip6hdr_lem, h)
          (ptr_add nh u.sizeof_ipv6hdr, refl, drop-At placed here u.sizeof_ipv6hdr (ground arith))
    | inr h ↦ rw (parse_ip6hdr_lem, h) refl
  ]

  -- With header sizes and offsets as `IsLayout` has them and the packet placed as `IsPlaced` says,
  -- and a cursor before the packet's last octets `rest`: `parse_tcphdr` reads no octet outside the
  -- packet. With a whole header there, options included, it returns the header's length, moves
  -- behind it and stores its address; else it returns -1, moves nothing and stores nothing.
  pub parse_tcphdr_lem : parse_tcphdr u md nh ≡ (
      if tcp_is_whole u rest
      then some (behind nh (tcp_length u rest) (tcp_length u rest))
      else some (failed nh))
  unfolding parse_tcphdr tcp_is_whole tcp_length
  parse_tcphdr_lem = ground (
    arith,
    bound-At placed here u.sizeof_tcphdr,
    bound-At placed here (u.tcphdr_doff (octet rest u.tcphdr_doff_at) * 4),
    load8-At placed here u.tcphdr_doff_at,
    layout.doff_lt (octet rest u.tcphdr_doff_at),
    layout.doff_in,
    layout.tcphdr_small,
  )

  -- With header sizes and offsets as `IsLayout` has them and the packet placed as `IsPlaced` says,
  -- and a cursor before the packet's last octets `rest`, on both byte orders: `parse_udphdr` reads
  -- no octet outside the packet. With a whole header there it moves behind it and stores its
  -- address, and returns the length field less the header's size, or -1 where the field is smaller
  -- than that; without one it returns -1, moves nothing and stores nothing.
  pub parse_udphdr_lem :
      (e : Endian)
      → parse_udphdr u e md nh ≡ (
          if leb u.sizeof_udphdr (length rest)
          then some (record {
            ret =
                if leb u.sizeof_udphdr (be16 rest u.udphdr_len)
                then pos (be16 rest u.udphdr_len - u.sizeof_udphdr)
                else minus_one;
            cursor = ptr_add nh u.sizeof_udphdr;
            hdr = some nh;
          })
          else some (failed nh))
  unfolding parse_udphdr
  parse_udphdr_lem e = ground (
    arith,
    bound-At placed here u.sizeof_udphdr,
    load16-At placed here e u.udphdr_len,
    ntohs-runtime_htons e (be16 rest u.udphdr_len),
    be16-lt rest u.udphdr_len,
    layout.len_in,
    layout.udphdr_small,
  )
