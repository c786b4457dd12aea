-- ===== src/Tests/Data.antt =====
-- A packet, helpers that count calls, and the facts that the properties ask of them.
use defrizer.Common.{ℕ, ◌+◌, List, [], ◌∷◌, ◌++◌, none, some, arith, ◌==◌, if◌then◌else◌}
use defrizer.Memory.{XdpMd, IsPlaced}
use defrizer.Program.Sock.{SockHelpers}
use defrizer.Program.Event.{EventHelpers}

-- An 802.1Q tag with VLAN identifier 5 in front of IPv4.
abbrev pub ethernet_header : List ℕ
ethernet_header =
    1 ∷ 2 ∷ 3 ∷ 4 ∷ 5 ∷ 6 ∷ 7 ∷ 8 ∷ 9 ∷ 10 ∷ 11 ∷ 12 ∷ 0x81 ∷ 0x00 ∷ 0x20 ∷ 0x05 ∷ 0x08 ∷ 0x00 ∷ []

-- Twenty octets, protocol 6.
abbrev pub ip_header : List ℕ
ip_header =
    0x45 ∷ 0 ∷ 0 ∷ 40 ∷ 0 ∷ 0 ∷ 0 ∷ 0 ∷ 64 ∷ 6 ∷ 0 ∷ 0 ∷ 10 ∷ 0 ∷ 0 ∷ 1 ∷ 10 ∷ 0 ∷ 0 ∷ 2 ∷ []

-- From port 110 to port 7777, twenty octets.
abbrev pub tcp_header : List ℕ
tcp_header =
    0 ∷ 110 ∷ 0x1e ∷ 0x61 ∷ 0 ∷ 0 ∷ 1 ∷ 2 ∷ 0 ∷ 0 ∷ 0 ∷ 0 ∷ 0x50 ∷ 2 ∷ 0 ∷ 0 ∷ 0 ∷ 0 ∷ 0 ∷ 0 ∷ []

-- To port 53, with a length field of 12.
abbrev pub udp_header : List ℕ
udp_header = 0 ∷ 110 ∷ 0 ∷ 53 ∷ 0 ∷ 12 ∷ 0 ∷ 0 ∷ 1 ∷ 2 ∷ 3 ∷ 4 ∷ []

-- The fixed IPv6 header, next header 6.
abbrev pub ip6_header : List ℕ
ip6_header =
    0x60 ∷ 0 ∷ 0 ∷ 0 ∷ 0 ∷ 20 ∷ 6 ∷ 64 ∷ 0 ∷ 0 ∷ 0 ∷ 0 ∷ 0 ∷ 0 ∷ 0 ∷ 0 ∷ 0 ∷ 0 ∷ 0 ∷ 0 ∷ 0 ∷ 0 ∷ 0
    ∷ 1 ∷ 0 ∷ 0 ∷ 0 ∷ 0 ∷ 0 ∷ 0 ∷ 0 ∷ 0 ∷ 0 ∷ 0 ∷ 0 ∷ 0 ∷ 0 ∷ 0 ∷ 0 ∷ 2 ∷ []

abbrev pub packet : List ℕ → XdpMd
packet f = record { data_start = 4096; frame = f; rx_queue_index = 3 }

abbrev pub tagged_segment : XdpMd
tagged_segment = packet (ethernet_header ++ ip_header ++ tcp_header)

pub tagged_segment-IsPlaced : IsPlaced tagged_segment
tagged_segment-IsPlaced = omega arith

-- Packets that begin at the layer in question.
abbrev pub ip_packet : XdpMd
ip_packet = packet (ip_header ++ tcp_header)

abbrev pub ip6_packet : XdpMd
ip6_packet = packet (ip6_header ++ tcp_header)

abbrev pub udp_packet : XdpMd
udp_packet = packet udp_header

abbrev pub tcp_packet : XdpMd
tcp_packet = packet tcp_header

pub ip_packet-IsPlaced : IsPlaced ip_packet
ip_packet-IsPlaced = omega arith

pub ip6_packet-IsPlaced : IsPlaced ip6_packet
ip6_packet-IsPlaced = omega arith

pub udp_packet-IsPlaced : IsPlaced udp_packet
udp_packet-IsPlaced = omega arith

pub tcp_packet-IsPlaced : IsPlaced tcp_packet
tcp_packet-IsPlaced = omega arith

-- The state counts the redirects. Queue 3 is configured, its entry is 1.
abbrev pub counting : SockHelpers ℕ
counting = record {
  map_lookup_elem = λ w i. if i == 3 then some 64 else none;
  read_int = λ w p. if p == 64 then 1 else 0;
  redirect_map = λ w i flags. (4, w + 1);
}

-- The state counts the traces, and a hundred for each event.
abbrev pub recording : EventHelpers ℕ
recording = record {
  trace_printk = λ w fmt size args. w + 1;
  ringbuf_output = λ w bytes size flags. (0, w + 100);
}
