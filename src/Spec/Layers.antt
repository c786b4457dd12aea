-- ===== src/Spec/Layers.antt =====
-- The layers of a frame as functions on lists of octets, numbers read in network order. The
-- EtherType, at most two VLAN tags, the IP header and the TCP header are stripped in turn.
use defrizer.Common.{
  ℕ, zero, suc, ◌+◌, ◌*◌, ◌%◌, List, Bool, true, false, ◌&&◌, ◌||◌, Option, none, some, leb, ◌==◌,
  if◌then◌else◌, length, get_or, drop,
}
use defrizer.Uapi.{Uapi}

unfoldable pub octet : List ℕ → ℕ → ℕ
octet xs i = get_or xs i 0 % 256

unfoldable pub be16 : List ℕ → ℕ → ℕ
be16 xs i = octet xs i * 256 + octet xs (i + 1)

-- A protocol number with the octets behind the header that names it.
abbrev pub Layer : Type 0
Layer = ℕ × List ℕ

module _ (u : Uapi) where
  unfoldable pub is_vlan : ℕ → Bool
  is_vlan p = p == u.eth_p_8021q || p == u.eth_p_8021ad

  -- At most `depth` VLAN tags of four octets; a truncated tag is left in place.
  unfoldable pub strip_vlans : ℕ → Layer → Layer
  strip_vlans zero l = l
  strip_vlans (suc depth) (p, rest) = elim (is_vlan p && leb 4 (length rest)) [
    | true ↦ strip_vlans depth (be16 rest 2, drop 4 rest)
    | false ↦ (p, rest)
  ]

  unfoldable pub ethernet : List ℕ → Option Layer
  ethernet f =
      if leb u.sizeof_ethhdr (length f)
      then some (strip_vlans 2 (be16 f u.ethhdr_h_proto, drop u.sizeof_ethhdr f))
      else none

  -- The header length field `ihl`, in octets.
  unfoldable pub ipv4_length : List ℕ → ℕ
  ipv4_length xs = u.iphdr_ihl (octet xs u.iphdr_ihl_at) * 4

  unfoldable pub ipv4 : List ℕ → Option Layer
  ipv4 xs =
      if leb u.sizeof_iphdr (length xs)
        && (leb u.sizeof_iphdr (ipv4_length xs) && leb (ipv4_length xs) (length xs))
      then some (octet xs u.iphdr_protocol, drop (ipv4_length xs) xs)
      else none

  unfoldable pub ipv6 : List ℕ → Option Layer
  ipv6 xs =
      if leb u.sizeof_ipv6hdr (length xs)
      then some (octet xs u.ipv6hdr_nexthdr, drop u.sizeof_ipv6hdr xs)
      else none

  -- The data offset field `doff`, in octets.
  unfoldable pub tcp_length : List ℕ → ℕ
  tcp_length xs = u.tcphdr_doff (octet xs u.tcphdr_doff_at) * 4

  unfoldable pub tcp_is_whole : List ℕ → Bool
  tcp_is_whole xs =
      leb u.sizeof_tcphdr (length xs)
      && (leb u.sizeof_tcphdr (tcp_length xs) && leb (tcp_length xs) (length xs))

-- What a frame is: too short for Ethernet; nothing that the programs look into; TCP with a broken
-- header; or a TCP segment, by the octets from its header on.
pub data Verdict : Type 0 where
  runt other broken_tcp : Verdict
  segment : List ℕ → Verdict

module _ (u : Uapi) where
  unfoldable pub ip_layer : Layer → Option Layer
  ip_layer (p, rest) =
      if p == u.eth_p_ip then ipv4 u rest else if p == u.eth_p_ipv6 then ipv6 u rest else none

  unfoldable pub tcp_layer : Option Layer → Verdict
  tcp_layer none = other
  tcp_layer (some (p, rest)) =
      if p == u.ipproto_tcp
      then (if tcp_is_whole u rest then segment rest else broken_tcp)
      else other

  unfoldable pub above_ethernet : Option Layer → Verdict
  above_ethernet none = runt
  above_ethernet (some l) = tcp_layer (ip_layer l)

  unfoldable pub classify : List ℕ → Verdict
  classify f = above_ethernet (ethernet u f)
