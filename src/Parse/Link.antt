-- ===== src/Parse/Link.antt =====
-- `parse_ethhdr_vlan` and `parse_ethhdr` against the Ethernet layer of the specification.
use defrizer.Common.{
  ℕ, zero, suc, ◌^◌, ◌<◌, ◌≡◌, refl, arith, inl, inr, List, true, false, Option, none, some, leb,
  Bool-cases, length, drop, ptr_add, if◌then◌else◌, pos,
}
use defrizer.Endian.{Endian, bpf_runtime_htons}
use defrizer.Uapi.{Uapi, IsLayout}
use defrizer.Memory.{XdpMd, IsPlaced}
use defrizer.Memory.Laws.{At, bound-At, load16-At, drop-At, be16-lt}
use defrizer.Spec.Layers.{Layer, be16, strip_vlans, ethernet}
use defrizer.Parse.{
  Parsed, failed, CollectVlans, VlanScan, vlan_max_depth, vlan_loop, parse_ethhdr_vlan,
  parse_ethhdr,
}
use defrizer.Parse.Vlan.{Scanned, scan, vlan_loop-Scanned, stored_ids}
use defrizer.Parse.Refine.{Reads}

module _ (u : Uapi) (rest : List ℕ) where
  -- The layer behind the Ethernet header, before any tag is stripped.
  abbrev untagged : Layer
  untagged = (be16 rest u.ethhdr_h_proto, drop u.sizeof_ethhdr rest)

  -- What `parse_ethhdr_vlan` leaves in the caller's array.
  pub link_ids : Option CollectVlans → Option CollectVlans
  link_ids vs = if leb u.sizeof_ethhdr (length rest) then stored_ids u 2 0 untagged vs else vs

-- The parse of `parse_ethhdr_vlan`, with the array that it leaves.
abbrev pub ReadsLink :
    Endian
    → XdpMd
    → ℕ
    → Option Layer
    → Option CollectVlans
    → Option (Parsed × Option CollectVlans)
    → Type 0
ReadsLink e md nh l vs r =
    (p : Parsed) × (r ≡ some (p, vs)) × Reads (bpf_runtime_htons e) md nh l (some p)

strip_vlans-lt :
    (u : Uapi) (depth p : ℕ) (rest : List ℕ)
    → p < 2 ^ 16
    → (strip_vlans u depth (p, rest)).0 < 2 ^ 16
unfolding strip_vlans
strip_vlans-lt u zero p rest h = h
strip_vlans-lt u (suc depth) p rest h =
    ground (arith, strip_vlans-lt u depth (be16 rest 2) (drop 4 rest), be16-lt rest 2)

-- An EtherType is a 16-bit number.
pub ethernet-lt :
    (u : Uapi) (rest : List ℕ) (p : ℕ) (above : List ℕ)
    → ethernet u rest ≡ some (p, above)
    → p < 2 ^ 16
unfolding ethernet
ethernet-lt u rest p above h = ground (
  arith,
  strip_vlans-lt u 2 (be16 rest u.ethhdr_h_proto) (drop u.sizeof_ethhdr rest),
  be16-lt rest u.ethhdr_h_proto,
)

module _ {u : Uapi} (e : Endian) {md : XdpMd} (layout : IsLayout u) (placed : IsPlaced md) {nh : ℕ}
    {rest : List ℕ} (here : At md nh rest) where
  short :
      (vs : Option CollectVlans)
      → leb u.sizeof_ethhdr (length rest) ≡ false
      → parse_ethhdr_vlan u e md nh vs ≡ some (failed nh, vs)
  unfolding parse_ethhdr_vlan
  short vs h = ground (arith, bound-At placed here u.sizeof_ethhdr, layout.ethhdr_small)

  long :
      (vs : Option CollectVlans) {s : VlanScan}
      → leb u.sizeof_ethhdr (length rest) ≡ true
      → vlan_loop u e md vlan_max_depth 0
          (scan e (ptr_add nh u.sizeof_ethhdr) (be16 rest u.ethhdr_h_proto) vs)
        ≡ some s
      → parse_ethhdr_vlan u e md nh vs
        ≡ some (record { ret = pos s.h_proto; cursor = s.vlh; hdr = some nh }, s.vlans)
  unfolding parse_ethhdr_vlan
  long vs h r = ground (
    arith,
    bound-At placed here u.sizeof_ethhdr,
    load16-At placed here e u.ethhdr_h_proto,
    layout.ethhdr_small,
    layout.h_proto_in,
  )

  after_tags :
      (vs : Option CollectVlans)
      → leb u.sizeof_ethhdr (length rest) ≡ true
      → Scanned e md (strip_vlans u 2 (untagged u rest)) (stored_ids u 2 0 (untagged u rest) vs) (
          vlan_loop u e md 2 0
            (scan e (ptr_add nh u.sizeof_ethhdr) (be16 rest u.ethhdr_h_proto) vs))
  after_tags vs h =
      vlan_loop-Scanned e layout placed 2 0 (be16 rest u.ethhdr_h_proto) vs
        (drop-At placed here u.sizeof_ethhdr (ground arith)) (be16-lt rest u.ethhdr_h_proto)

  -- With header sizes and offsets as `IsLayout` has them and the packet placed as `IsPlaced` says,
  -- and a cursor before the packet's last octets `rest`: `parse_ethhdr_vlan` reads no octet outside
  -- the packet. With a whole Ethernet header there it skips at most two whole VLAN tags, returns
  -- the type behind them as it lies on the wire, stores the header's address, and writes the tags'
  -- identifiers to the caller's array in order, or to nothing where the array is null; else it
  -- returns -1 and moves and stores nothing.
  pub parse_ethhdr_vlan-Reads :
      (vs : Option CollectVlans)
      → ReadsLink e md nh (ethernet u rest) (link_ids u rest vs) (parse_ethhdr_vlan u e md nh vs)
  unfolding ethernet link_ids
  parse_ethhdr_vlan-Reads vs = elim (Bool-cases (leb u.sizeof_ethhdr (length rest))) [
    | inl h ↦
        let s = after_tags vs h in
        rw (h) (
          record {
            ret = pos (bpf_runtime_htons e (strip_vlans u 2 (untagged u rest)).0);
            cursor = s.vlh;
            hdr = some nh;
          },
          long vs h s.returns,
          (s.vlh, refl, s.stands),
        )
    | inr h ↦ rw (h, short vs h) (failed nh, refl, refl)
  ]

  pub parse_ethhdr-Reads :
      Reads (bpf_runtime_htons e) md nh (ethernet u rest) (parse_ethhdr u e md nh)
  unfolding parse_ethhdr
  parse_ethhdr-Reads = let r = parse_ethhdr_vlan-Reads none in rw (r.1) r.2
