-- ===== src/Spec/Frame.antt =====
-- Whole TCP segments in Ethernet frames, by their fields, and the octets that they are sent as: the
-- packets that the programs are written for.
pub mod Octets
pub mod Encode
use defrizer.Common.{
  ℕ, ◌+◌, ◌*◌, ◌/◌, ◌%◌, ◌^◌, ◌≤◌, ◌<◌, ◌≡◌, List, [], ◌∷◌, ◌++◌, Bool, true, false, length,
}

-- A VLAN tag: of a provider (802.1ad) or of a customer (802.1Q), with its control information.
pub record Tag : Type 0 where
  pub provider : Bool
  pub tci : ℕ

-- The network layer. Of an IPv4 header the first octet, the protocol and the octets between and
-- behind them, among them the fragment offset and the options; of an IPv6 header the octets before
-- and behind the next-header field.
pub data Network : Type 0 where
  v4 : ℕ → List ℕ → List ℕ → Network
  v6 : List ℕ → List ℕ → Network

pub record Frame : Type 0 where
  pub macs : List ℕ
  pub tags : List Tag
  pub network : Network
  pub source : ℕ
  pub dest : ℕ
  -- the sequence and acknowledgement numbers
  pub numbers : List ℕ
  pub doff : ℕ
  -- the low bits of the octet that holds `doff`
  pub reserved : ℕ
  -- flags, window, checksum, urgent pointer and options
  pub tcp_rest : List ℕ
  pub payload : List ℕ

abbrev pub IsNetwork : Network → Type 0
IsNetwork (v4 ihl before behind) =
    (5 ≤ ihl) × (ihl < 16) × (length before ≡ 8) × (length behind + 10 ≡ ihl * 4)
IsNetwork (v6 before behind) = (length before ≡ 6) × (length behind ≡ 33)

pub record IsFrame (f : Frame) : Type 0 where
  pub macs_length : length f.macs ≡ 12
  pub tags_length : length f.tags ≤ 2
  pub network_right : IsNetwork f.network
  pub source_u16 : f.source < 2 ^ 16
  pub dest_u16 : f.dest < 2 ^ 16
  pub numbers_length : length f.numbers ≡ 8
  pub doff_least : 5 ≤ f.doff
  pub doff_lt : f.doff < 16
  pub reserved_lt : f.reserved < 16
  pub tcp_rest_length : length f.tcp_rest + 13 ≡ f.doff * 4

-- Two octets, the higher first.
abbrev pub be_octets : ℕ → List ℕ → List ℕ
be_octets x rest = x / 256 ∷ x % 256 ∷ rest

unfoldable pub tcp_octets : Frame → List ℕ
tcp_octets f =
    be_octets f.source
      (be_octets f.dest (f.numbers ++ ((f.doff * 16 + f.reserved) ∷ (f.tcp_rest ++ f.payload))))

-- The EtherType, the network header, and what it carries. The protocol is 6.
unfoldable pub network_octets : Network → List ℕ → List ℕ
network_octets (v4 ihl before behind) rest =
    0x08 ∷ 0x00 ∷ (64 + ihl) ∷ (before ++ (6 ∷ (behind ++ rest)))
network_octets (v6 before behind) rest = 0x86 ∷ 0xdd ∷ (before ++ (6 ∷ (behind ++ rest)))

unfoldable pub tag_octets : List Tag → List ℕ → List ℕ
tag_octets [] rest = rest
tag_octets (t ∷ ts) rest = elim t.provider [
  | true ↦ 0x88 ∷ 0xa8 ∷ be_octets t.tci (tag_octets ts rest)
  | false ↦ 0x81 ∷ 0x00 ∷ be_octets t.tci (tag_octets ts rest)
]

unfoldable pub encode : Frame → List ℕ
encode f = f.macs ++ tag_octets f.tags (network_octets f.network (tcp_octets f))
