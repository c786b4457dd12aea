-- ===== src/Parse/Vlan.antt =====
-- The loop of `parse_ethhdr_vlan` against `strip_vlans`.
use defrizer.Common.{
  ℕ, zero, suc, ◌+◌, ◌/◌, ◌%◌, ◌^◌, ◌≤◌, ◌<◌, ◌≡◌, refl, arith, inl, inr, bit_and, List, Bool, true,
  false, ◌&&◌, Option, none, some, leb, Bool-cases, length, set, drop, ptr_add,
}
use defrizer.Common.Bits.{bit_and_low}
use defrizer.Endian.{Endian, bpf_runtime_htons}
use defrizer.Endian.Laws.{wire_test, ntohs-runtime_htons}
use defrizer.Uapi.{Uapi, IsLayout}
use defrizer.Memory.{XdpMd, IsPlaced}
use defrizer.Memory.Laws.{At, bound-At, load16-At, drop-At, be16-lt}
use defrizer.Spec.Layers.{Layer, be16, is_vlan, strip_vlans}
use defrizer.Parse.{CollectVlans, VlanScan, vlan_vid_mask, proto_is_vlan, collect_vlan, vlan_loop}

-- `vlans->id[i] = vid`, unless `vlans` is null.
pub store_id : ℕ → ℕ → Option CollectVlans → Option CollectVlans
store_id i vid none = none
store_id i vid (some vs) = some (record { id = set vs.id i vid })

module _ (u : Uapi) where
  -- The array after the loop: the identifiers of the stripped tags, from index `i` on.
  pub stored_ids : ℕ → ℕ → Layer → Option CollectVlans → Option CollectVlans
  stored_ids zero i l vs = vs
  stored_ids (suc depth) i (p, rest) vs = elim (is_vlan u p && leb 4 (length rest)) [
    | true ↦
        stored_ids depth (i + 1) (be16 rest 2, drop 4 rest) (store_id i (be16 rest 0 % 4096) vs)
    | false ↦ vs
  ]

-- The loop's variables at pointer `q` behind protocol `p`.
abbrev pub scan : Endian → ℕ → ℕ → Option CollectVlans → VlanScan
scan e q p vs = record { vlh = q; h_proto = bpf_runtime_htons e p; vlans = vs }

vid_mask : (x : ℕ) → bit_and x vlan_vid_mask ≡ x % 4096
vid_mask x = ground (arith, bit_and_low 12 (x / 4096) (x % 4096))

pub proto_is_vlan_lem :
    {u : Uapi} (e : Endian)
    → IsLayout u
    → (p : ℕ) → p < 2 ^ 16
    → proto_is_vlan u e (bpf_runtime_htons e p) ≡ is_vlan u p
unfolding proto_is_vlan is_vlan
proto_is_vlan_lem {u} e layout p h = rw (
  wire_test e p u.eth_p_8021q h layout.p_8021q_u16,
  wire_test e p u.eth_p_8021ad h layout.p_8021ad_u16,
)

module _ {u : Uapi} (e : Endian) {md : XdpMd} (layout : IsLayout u) (placed : IsPlaced md) {q : ℕ}
    {rest : List ℕ} (here : At md q rest) where
  collect_vlan_lem :
      (i : ℕ) (vs : Option CollectVlans)
      → 4 ≤ length rest
      → collect_vlan e md q i vs ≡ some (store_id i (be16 rest 0 % 4096) vs)
  unfolding collect_vlan store_id
  collect_vlan_lem i none h = refl
  collect_vlan_lem i (some vs) h =
      rw
        (
          load16-At placed here e 0 (omega arith),
          ntohs-runtime_htons e (be16 rest 0) (be16-lt rest 0),
          vid_mask (be16 rest 0),
        )
        refl

  loop_stop :
      (left i p : ℕ) (vs : Option CollectVlans)
      → p < 2 ^ 16
      → (is_vlan u p && leb 4 (length rest)) ≡ false
      → vlan_loop u e md (suc left) i (scan e q p vs) ≡ some (scan e q p vs)
  unfolding vlan_loop
  loop_stop left i p vs hp h =
      ground (arith, proto_is_vlan_lem e layout p hp, bound-At placed here 4 (omega arith))

  loop_step :
      (left i p : ℕ) (vs : Option CollectVlans)
      → p < 2 ^ 16
      → (is_vlan u p && leb 4 (length rest)) ≡ true
      → vlan_loop u e md (suc left) i (scan e q p vs)
        ≡ vlan_loop u e md left
            (i + 1)
            (scan e (ptr_add q 4) (be16 rest 2) (store_id i (be16 rest 0 % 4096) vs))
  unfolding vlan_loop
  loop_step left i p vs hp h = ground (
    arith,
    proto_is_vlan_lem e layout p hp,
    bound-At placed here 4 (omega arith),
    load16-At placed here e 2,
    collect_vlan_lem i vs,
  )

module _ (u : Uapi) (depth i p : ℕ) (rest : List ℕ) (vs : Option CollectVlans) where
  abbrev Tagged : Bool → Type 0
  Tagged b = (is_vlan u p && leb 4 (length rest)) ≡ b

  strip_step :
      Tagged true
      → strip_vlans u (suc depth) (p, rest) ≡ strip_vlans u depth (be16 rest 2, drop 4 rest)
  unfolding strip_vlans
  strip_step h = rw (h, strip_vlans)

  strip_stop : Tagged false → strip_vlans u (suc depth) (p, rest) ≡ (p, rest)
  unfolding strip_vlans
  strip_stop h = rw (h, strip_vlans)

  ids_step :
      Tagged true
      → stored_ids u (suc depth) i (p, rest) vs
        ≡ stored_ids u depth (i + 1) (be16 rest 2, drop 4 rest) (store_id i (be16 rest 0 % 4096) vs)
  unfolding stored_ids
  ids_step h = rw (h, stored_ids)

  ids_stop : Tagged false → stored_ids u (suc depth) i (p, rest) vs ≡ vs
  unfolding stored_ids
  ids_stop h = rw (h, stored_ids)

-- The loop stopped at the layer `l` with the array `vs`.
pub record Scanned (e : Endian) (md : XdpMd) (l : Layer) (vs : Option CollectVlans)
    (r : Option VlanScan) : Type 0 where
  pub vlh : ℕ
  pub returns : r ≡ some (scan e vlh l.0 vs)
  pub stands : At md vlh l.1
  pub proto_u16 : l.0 < 2 ^ 16

module _ {u : Uapi} (e : Endian) {md : XdpMd} (layout : IsLayout u) (placed : IsPlaced md) where
  pub vlan_loop-Scanned :
      (depth i p : ℕ) {q : ℕ} {rest : List ℕ} (vs : Option CollectVlans)
      → At md q rest
      → p < 2 ^ 16
      → Scanned e md
          (strip_vlans u depth (p, rest))
          (stored_ids u depth i (p, rest) vs)
          (vlan_loop u e md depth i (scan e q p vs))
  vlan_loop-Scanned zero i p {q} vs here hp =
      unfold vlan_loop strip_vlans stored_ids in
      record { vlh = q; returns = refl; stands = here; proto_u16 = hp }
  vlan_loop-Scanned (suc depth) i p {q} {rest} vs here hp =
      elim (Bool-cases (is_vlan u p && leb 4 (length rest))) [
        | inl tag ↦
            rw
              (
                strip_step u depth i p rest vs tag,
                ids_step u depth i p rest vs tag,
                loop_step e layout placed here depth i p vs hp tag,
              )
              (vlan_loop-Scanned depth (i + 1) (be16 rest 2) (store_id i (be16 rest 0 % 4096) vs)
                (drop-At placed here 4 (ground arith)) (be16-lt rest 2))
        | inr plain ↦
            rw
              (
                strip_stop u depth i p rest vs plain,
                ids_stop u depth i p rest vs plain,
                loop_stop e layout placed here depth i p vs hp plain,
              )
              (record { vlh = q; returns = refl; stands = here; proto_u16 = hp })
      ]
