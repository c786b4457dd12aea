-- ===== src/Uapi.antt =====
-- The kernel's headers that the programs include and the repository does not hold (linux/if_ether.h,
-- linux/ip.h, linux/ipv6.h, linux/tcp.h, linux/udp.h, linux/in.h), as a parameter: sizes and field
-- offsets of the packed wire structs, in bytes, and protocol numbers in host order.
use defrizer.Common.{ℕ, ◌+◌, ◌/◌, ◌%◌, ◌^◌, ◌≤◌, ◌<◌, arith}

pub record Uapi : Type 0 where
  pub sizeof_ethhdr : ℕ
  pub ethhdr_h_proto : ℕ
  pub sizeof_iphdr : ℕ
  -- the byte that holds the bit-field `ihl`, and its value in that byte
  pub iphdr_ihl_at : ℕ
  pub iphdr_ihl : ℕ → ℕ
  pub iphdr_protocol : ℕ
  pub sizeof_ipv6hdr : ℕ
  pub ipv6hdr_nexthdr : ℕ
  pub sizeof_udphdr : ℕ
  pub udphdr_len : ℕ
  pub sizeof_tcphdr : ℕ
  pub tcphdr_source : ℕ
  pub tcphdr_dest : ℕ
  pub tcphdr_seq : ℕ
  -- the byte that holds the bit-field `doff`, and its value in that byte
  pub tcphdr_doff_at : ℕ
  pub tcphdr_doff : ℕ → ℕ
  pub eth_p_ip : ℕ
  pub eth_p_ipv6 : ℕ
  pub eth_p_8021q : ℕ
  pub eth_p_8021ad : ℕ
  pub ipproto_tcp : ℕ

-- What holds of any layout: each field lies in its struct, sizes are small, `ihl` and `doff` are
-- four bits wide, and an Ethernet protocol number is a `__u16`.
pub record IsLayout (u : Uapi) : Type 0 where
  pub h_proto_in : u.ethhdr_h_proto + 2 ≤ u.sizeof_ethhdr
  pub ihl_in : u.iphdr_ihl_at < u.sizeof_iphdr
  pub ihl_lt : (b : ℕ) → u.iphdr_ihl b < 16
  pub protocol_in : u.iphdr_protocol < u.sizeof_iphdr
  pub nexthdr_in : u.ipv6hdr_nexthdr < u.sizeof_ipv6hdr
  pub len_in : u.udphdr_len + 2 ≤ u.sizeof_udphdr
  pub source_in : u.tcphdr_source + 2 ≤ u.sizeof_tcphdr
  pub dest_in : u.tcphdr_dest + 2 ≤ u.sizeof_tcphdr
  pub seq_in : u.tcphdr_seq + 4 ≤ u.sizeof_tcphdr
  pub doff_in : u.tcphdr_doff_at < u.sizeof_tcphdr
  pub doff_lt : (b : ℕ) → u.tcphdr_doff b < 16
  pub ethhdr_small : u.sizeof_ethhdr ≤ 64
  pub iphdr_small : u.sizeof_iphdr ≤ 64
  pub ipv6hdr_small : u.sizeof_ipv6hdr ≤ 64
  pub udphdr_small : u.sizeof_udphdr ≤ 64
  pub tcphdr_small : u.sizeof_tcphdr ≤ 64
  pub ip_u16 : u.eth_p_ip < 2 ^ 16
  pub ipv6_u16 : u.eth_p_ipv6 < 2 ^ 16
  pub p_8021q_u16 : u.eth_p_8021q < 2 ^ 16
  pub p_8021ad_u16 : u.eth_p_8021ad < 2 ^ 16

-- The documented values (IEEE 802.3 and 802.1Q, RFC 791, 8200, 768, 9293).
abbrev pub linux : Uapi
linux = record {
  sizeof_ethhdr = 14;
  ethhdr_h_proto = 12;
  sizeof_iphdr = 20;
  iphdr_ihl_at = 0;
  iphdr_ihl = λ b. b % 16;
  iphdr_protocol = 9;
  sizeof_ipv6hdr = 40;
  ipv6hdr_nexthdr = 6;
  sizeof_udphdr = 8;
  udphdr_len = 4;
  sizeof_tcphdr = 20;
  tcphdr_source = 0;
  tcphdr_dest = 2;
  tcphdr_seq = 4;
  tcphdr_doff_at = 12;
  tcphdr_doff = λ b. b / 16 % 16;
  eth_p_ip = 0x0800;
  eth_p_ipv6 = 0x86dd;
  eth_p_8021q = 0x8100;
  eth_p_8021ad = 0x88a8;
  ipproto_tcp = 6;
}

pub linux-IsLayout : IsLayout linux
linux-IsLayout = omega arith
