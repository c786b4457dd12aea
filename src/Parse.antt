-- ===== src/Parse.antt =====
-- The header parsers of src/ebpf/tcp_syn_kern.h, over the cursor `nh.pos`. Each returns in the
-- fault monad its `int`, the cursor it leaves, and what it stored through its out-pointer.
pub mod Vlan
pub mod Refine
pub mod Link
pub mod Bounds
use defrizer.Common.{
  ℕ, zero, suc, ◌+◌, ◌-◌, ◌*◌, ◌^◌, bit_and, List, Bool, true, false, ◌||◌, Option, none, some, ltb,
  ◌==◌, if◌then◌else◌, ◌>>=◌, set, ptr_add, ℤ, pos, minus_one, is_negative, to_int, u64,
}
use defrizer.Endian.{Endian, bpf_htons, bpf_ntohs}
use defrizer.Uapi.{Uapi}
use defrizer.Memory.{XdpMd, data_end, load8, load16}

pub record Parsed : Type 0 where
  pub ret : ℤ
  -- `nh->pos` on return
  pub cursor : ℕ
  -- what was stored through the out-pointer, if anything was
  pub hdr : Option ℕ

-- `VLAN_MAX_DEPTH`, `VLAN_VID_MASK`, and the layout of `struct vlan_hdr`: two `__be16`.
abbrev pub vlan_max_depth : ℕ
vlan_max_depth = 2

abbrev pub vlan_vid_mask : ℕ
vlan_vid_mask = 0x0fff

abbrev pub sizeof_vlan_hdr : ℕ
sizeof_vlan_hdr = 4

abbrev pub vlan_hdr_tci : ℕ
vlan_hdr_tci = 0

abbrev pub vlan_hdr_encapsulated_proto : ℕ
vlan_hdr_encapsulated_proto = 2

-- `struct collect_vlans`: the array `id`.
pub record CollectVlans : Type 0 where
  pub id : List ℕ

-- The variables of the loop over VLAN headers. `vlans` is `none` for a null pointer.
pub record VlanScan : Type 0 where
  pub vlh : ℕ
  pub h_proto : ℕ
  pub vlans : Option CollectVlans

-- A parse failure that moves nothing.
abbrev pub failed : ℕ → Parsed
failed at = record { ret = minus_one; cursor = at; hdr = none }

module _ (u : Uapi) (e : Endian) where
  unfoldable pub proto_is_vlan : ℕ → Bool
  proto_is_vlan h_proto =
      h_proto == bpf_htons e true u.eth_p_8021q || h_proto == bpf_htons e true u.eth_p_8021ad

module _ (e : Endian) (md : XdpMd) where
  -- `if (vlans) vlans->id[i] = bpf_ntohs(vlh->h_vlan_TCI) & VLAN_VID_MASK`
  unfoldable pub collect_vlan : ℕ → ℕ → Option CollectVlans → Option (Option CollectVlans)
  collect_vlan vlh i none = some none
  collect_vlan vlh i (some vs) = do
    tci ← load16 md e (ptr_add vlh vlan_hdr_tci)
    some (some (record { id = set vs.id i (bit_and (bpf_ntohs e false tci) vlan_vid_mask) }))

module _ (u : Uapi) (e : Endian) (md : XdpMd) where
  -- The unrolled loop, with `left` rounds to go, at index `i`.
  unfoldable pub vlan_loop : ℕ → ℕ → VlanScan → Option VlanScan
  vlan_loop zero i s = some s
  vlan_loop (suc left) i s = elim (proto_is_vlan u e s.h_proto) [
    | false ↦ some s
    | true ↦ elim (ltb (data_end md) (ptr_add s.vlh sizeof_vlan_hdr)) [
      | true ↦ some s
      | false ↦ do
        h_proto ← load16 md e (ptr_add s.vlh vlan_hdr_encapsulated_proto)
        vlans ← collect_vlan e md s.vlh i s.vlans
        vlan_loop left (i + 1)
            (record { vlh = ptr_add s.vlh sizeof_vlan_hdr; h_proto = h_proto; vlans = vlans })
    ]
  ]

  unfoldable pub parse_ethhdr_vlan : ℕ → Option CollectVlans → Option (Parsed × Option CollectVlans)
  parse_ethhdr_vlan nh vlans =
      if ltb (data_end md) (ptr_add nh u.sizeof_ethhdr) then some (failed nh, vlans) else do
        h_proto ← load16 md e (ptr_add nh u.ethhdr_h_proto)
        s ←
            vlan_loop vlan_max_depth 0
              (record { vlh = ptr_add nh u.sizeof_ethhdr; h_proto = h_proto; vlans = vlans })
        some (record { ret = pos s.h_proto; cursor = s.vlh; hdr = some nh }, s.vlans)

  unfoldable pub parse_ethhdr : ℕ → Option Parsed
  parse_ethhdr nh = do r ← parse_ethhdr_vlan nh none; some r.0

module _ (u : Uapi) (md : XdpMd) where
  unfoldable pub parse_iphdr : ℕ → Option Parsed
  parse_iphdr nh = if ltb (data_end md) (ptr_add nh u.sizeof_iphdr) then some (failed nh) else do
    b ← load8 md (ptr_add nh u.iphdr_ihl_at)
    let hdrsize = u.iphdr_ihl b * 4
    if ltb hdrsize u.sizeof_iphdr
        then some (failed nh)
        else if ltb (data_end md) (ptr_add nh hdrsize)
        then some (failed nh)
        else do
          protocol ← load8 md (ptr_add nh u.iphdr_protocol)
          some (record { ret = pos protocol; cursor = ptr_add nh hdrsize; hdr = some nh })

  unfoldable pub parse_ip6hdr : ℕ → Option Parsed
  parse_ip6hdr nh = if ltb (data_end md) (ptr_add nh u.sizeof_ipv6hdr) then some (failed nh) else do
    nexthdr ← load8 md (ptr_add nh u.ipv6hdr_nexthdr)
    some (record { ret = pos nexthdr; cursor = ptr_add nh u.sizeof_ipv6hdr; hdr = some nh })

  unfoldable pub parse_tcphdr : ℕ → Option Parsed
  parse_tcphdr nh = if ltb (data_end md) (ptr_add nh u.sizeof_tcphdr) then some (failed nh) else do
    b ← load8 md (ptr_add nh u.tcphdr_doff_at)
    let len = u.tcphdr_doff b * 4
    if ltb len u.sizeof_tcphdr
        then some (failed nh)
        else if ltb (data_end md) (ptr_add nh len)
        then some (failed nh)
        else some (record { ret = pos len; cursor = ptr_add nh len; hdr = some nh })

-- The difference is taken in 64-bit `size_t` and converted to `int`. The cursor has moved and the
-- out-pointer is set on the second failure too.
module _ (u : Uapi) (e : Endian) (md : XdpMd) where
  unfoldable pub parse_udphdr : ℕ → Option Parsed
  parse_udphdr nh = if ltb (data_end md) (ptr_add nh u.sizeof_udphdr) then some (failed nh) else do
    len_be ← load16 md e (ptr_add nh u.udphdr_len)
    let len = to_int (u64 (bpf_ntohs e false len_be + 2 ^ 64 - u.sizeof_udphdr))
    some (record {
      ret = if is_negative len then minus_one else len;
      cursor = ptr_add nh u.sizeof_udphdr;
      hdr = some nh;
    })
