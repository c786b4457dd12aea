-- ===== src/Spec/Frame/Encode.antt =====
-- The specification on encoded frames.
use defrizer.Common.{
  ℕ, zero, suc, ◌+◌, ◌*◌, ◌≤◌, ◌≡◌, refl, ap, ◌∙◌, arith, List, [], ◌∷◌, ◌++◌, Bool, true, false,
  some, length, drop, length-append, leb,
}
use defrizer.Uapi.{linux}
use defrizer.Spec.Layers.{
  octet, be16, is_vlan, strip_vlans, ethernet, ipv4_length, ipv4, ipv6, tcp_length, tcp_is_whole,
  ip_layer, tcp_layer, above_ethernet, classify, segment,
}
use defrizer.Spec.Frame.Octets.{octet-append, drop-append, drop-append_more}
use defrizer.Spec.Frame.{
  Tag, Network, v4, v6, Frame, IsNetwork, IsFrame, be_octets, tcp_octets, network_octets,
  tag_octets, encode,
}

-- `rest` begins with an EtherType that is no VLAN tag.
abbrev Untagged : List ℕ → Type 0
Untagged rest = (2 ≤ length rest) × (is_vlan linux (be16 rest 0) ≡ false)

strip-Untagged :
    (d : ℕ) (rest : List ℕ)
    → Untagged rest
    → strip_vlans linux d (be16 rest 0, drop 2 rest) ≡ (be16 rest 0, drop 2 rest)
unfolding strip_vlans
strip-Untagged zero rest h = refl
strip-Untagged (suc d) rest h = rw (h.1, strip_vlans)

length-tag_octets : (ts : List Tag) (rest : List ℕ) → length rest ≤ length (tag_octets ts rest)
unfolding tag_octets
length-tag_octets [] rest = omega arith
length-tag_octets (t ∷ ts) rest = ground (arith, length-tag_octets ts rest)

-- One tag, of either kind, in front of `rest`.
strip_tag :
    (d : ℕ) (provider : Bool) (tci : ℕ) (ts : List Tag) (rest : List ℕ)
    → 2 ≤ length (tag_octets ts rest)
    → let tagged = tag_octets (record { provider = provider; tci = tci } ∷ ts) rest in
      strip_vlans linux (suc d) (be16 tagged 0, drop 2 tagged)
      ≡ strip_vlans linux d (be16 (tag_octets ts rest) 0, drop 2 (tag_octets ts rest))
unfolding tag_octets strip_vlans is_vlan be16 octet
strip_tag d true tci ts rest h = rw (long_enough, strip_vlans)
  where
    long_enough : leb 4 (suc (suc (length (tag_octets ts rest)))) ≡ true
    long_enough = ground arith
strip_tag d false tci ts rest h = rw (long_enough, strip_vlans)
  where
    long_enough : leb 4 (suc (suc (length (tag_octets ts rest)))) ≡ true
    long_enough = ground arith

strip_tags :
    (d : ℕ) (ts : List Tag) (rest : List ℕ)
    → length ts ≤ d
    → Untagged rest
    → strip_vlans linux d (be16 (tag_octets ts rest) 0, drop 2 (tag_octets ts rest))
      ≡ (be16 rest 0, drop 2 rest)
strip_tags d [] rest h u = unfold tag_octets in strip-Untagged d rest u
strip_tags zero (t ∷ ts) rest h u = absurd (omega arith)
strip_tags (suc d) (t ∷ ts) rest h u =
    strip_tag d t.provider t.tci ts rest (omega (arith, length-tag_octets ts rest))
    ∙ strip_tags d ts rest (omega arith) u

-- The Ethernet layer of addresses, at most two tags, and an EtherType with what follows it.
ethernet_lem :
    (macs : List ℕ) (ts : List Tag) (rest : List ℕ)
    → length macs ≡ 12
    → length ts ≤ 2
    → Untagged rest
    → ethernet linux (macs ++ tag_octets ts rest) ≡ some (be16 rest 0, drop 2 rest)
unfolding ethernet be16
ethernet_lem macs ts rest hm ht u =
    rw
      (
        long_enough,
        octet-append macs (tag_octets ts rest) 12 0 hm,
        octet-append macs (tag_octets ts rest) 12 1 hm,
        drop-append_more macs (tag_octets ts rest) 12 2 hm,
      )
      (ap some (strip_tags 2 ts rest ht u))
  where
    long_enough : leb 14 (length (macs ++ tag_octets ts rest)) ≡ true
    long_enough = ground (arith, length-append macs (tag_octets ts rest), length-tag_octets ts rest)

module _ (ihl : ℕ) (before behind rest : List ℕ) (right : IsNetwork (v4 ihl before behind)) where
  abbrev v4_octets : List ℕ
  v4_octets = (64 + ihl) ∷ (before ++ (6 ∷ (behind ++ rest)))

  v4_length : ipv4_length linux v4_octets ≡ ihl * 4
  unfolding ipv4_length octet
  v4_length = omega (arith, right.0, right.1)

  v4_protocol : octet v4_octets 9 ≡ 6
  v4_protocol =
      octet-append ((64 + ihl) ∷ before) (6 ∷ (behind ++ rest)) 9 0 (omega (arith, right.2))
      ∙ (unfold octet in refl)

  v4_payload : drop (ihl * 4) v4_octets ≡ rest
  v4_payload =
      ap (λ k. drop k v4_octets) {x = ihl * 4} {y = 9 + suc (length behind)}
        (omega (arith, right.2, right.3))
      ∙ drop-append_more ((64 + ihl) ∷ before) (6 ∷ (behind ++ rest)) 9 (suc (length behind))
          (omega (arith, right.2))
      ∙ drop-append behind rest (length behind) refl

  v4_long : length v4_octets ≡ 10 + length behind + length rest
  v4_long =
      omega (arith, length-append before (6 ∷ (behind ++ rest)), length-append behind rest, right.2)

  ipv4_lem : ipv4 linux v4_octets ≡ some (6, rest)
  unfolding ipv4
  ipv4_lem = ground (arith, v4_length, v4_protocol, v4_payload, v4_long, right.0, right.2, right.3)

module _ (before behind rest : List ℕ) (right : IsNetwork (v6 before behind)) where
  abbrev v6_octets : List ℕ
  v6_octets = before ++ (6 ∷ (behind ++ rest))

  v6_protocol : octet v6_octets 6 ≡ 6
  v6_protocol = octet-append before (6 ∷ (behind ++ rest)) 6 0 right.0 ∙ (unfold octet in refl)

  v6_payload : drop 40 v6_octets ≡ rest
  v6_payload =
      drop-append_more before (6 ∷ (behind ++ rest)) 6 34 right.0
      ∙ drop-append behind rest 33 right.1

  v6_long : length v6_octets ≡ 40 + length rest
  v6_long = omega (
    arith,
    length-append before (6 ∷ (behind ++ rest)),
    length-append behind rest,
    right.0,
    right.1,
  )

  ipv6_lem : ipv6 linux v6_octets ≡ some (6, rest)
  unfolding ipv6
  ipv6_lem = ground (arith, v6_protocol, v6_payload, v6_long)

network-Untagged : (n : Network) (rest : List ℕ) → Untagged (network_octets n rest)
unfolding network_octets is_vlan be16 octet
network-Untagged (v4 ihl before behind) rest = (omega arith, refl)
network-Untagged (v6 before behind) rest = (omega arith, refl)

network_lem :
    (n : Network) (rest : List ℕ)
    → IsNetwork n
    → ip_layer linux (be16 (network_octets n rest) 0, drop 2 (network_octets n rest))
      ≡ some (6, rest)
unfolding network_octets ip_layer be16 octet
network_lem (v4 ihl before behind) rest right = ipv4_lem ihl before behind rest right
network_lem (v6 before behind) rest right = ipv6_lem before behind rest right

module _ (f : Frame) (right : IsFrame f) where
  tcp_doff : octet (tcp_octets f) 12 ≡ f.doff * 16 + f.reserved
  unfolding tcp_octets
  tcp_doff =
      octet-append (be_octets f.source (be_octets f.dest f.numbers))
        ((f.doff * 16 + f.reserved) ∷ (f.tcp_rest ++ f.payload)) 12 0
        (omega (arith, right.numbers_length))
      ∙ (unfold octet in omega (arith, right.doff_lt, right.reserved_lt))

  tcp_long : length (tcp_octets f) ≡ f.doff * 4 + length f.payload
  unfolding tcp_octets
  tcp_long = omega (
    arith,
    length-append f.numbers ((f.doff * 16 + f.reserved) ∷ (f.tcp_rest ++ f.payload)),
    length-append f.tcp_rest f.payload,
    right.numbers_length,
    right.tcp_rest_length,
  )

  tcp_whole : tcp_is_whole linux (tcp_octets f) ≡ true
  unfolding tcp_is_whole tcp_length
  tcp_whole = ground (arith, tcp_doff, tcp_long, right.doff_least, right.doff_lt, right.reserved_lt)

  pub dest_lem : be16 (tcp_octets f) 2 ≡ f.dest
  unfolding tcp_octets be16 octet
  dest_lem = omega (arith, right.dest_u16)

  pub source_lem : be16 (tcp_octets f) 0 ≡ f.source
  unfolding tcp_octets be16 octet
  source_lem = omega (arith, right.source_u16)

  -- An encoded frame is a TCP segment, and its octets are those from the TCP header on.
  pub classify-encode : classify linux (encode f) ≡ segment (tcp_octets f)
  unfolding classify above_ethernet tcp_layer encode
  classify-encode =
      rw
        (
          ethernet_lem f.macs f.tags (network_octets f.network (tcp_octets f)) right.macs_length
              right.tags_length (network-Untagged f.network (tcp_octets f)),
          network_lem f.network (tcp_octets f) right.network_right,
          tcp_whole,
        )
        refl
