-- ===== src/Program/Walk.antt =====
-- The walk that both programs make over a packet, from the Ethernet header to the TCP header, for
-- any continuation behind it: it comes out where `classify` says.
use defrizer.Common.{
  ℕ, ◌≡◌, refl, inl, inr, List, true, Option, none, some, Bool-cases, ◌>>=◌, if◌then◌else◌, ◌==◌,
  ◌==ℤ◌, is_negative, pos, ◌^◌, ◌<◌,
}
use defrizer.Endian.{Endian, bpf_runtime_htons}
use defrizer.Endian.Laws.{wire_test}
use defrizer.Uapi.{Uapi, IsLayout}
use defrizer.Memory.{XdpMd, IsPlaced}
use defrizer.Memory.Laws.{At, At-start}
use defrizer.Parse.{Parsed, failed, parse_ethhdr, parse_iphdr, parse_ip6hdr, parse_tcphdr}
use defrizer.Parse.Refine.{Reads, behind, parse_iphdr-Reads, parse_ip6hdr-Reads, parse_tcphdr_lem}
use defrizer.Parse.Link.{parse_ethhdr-Reads, ethernet-lt}
use defrizer.Program.Sock.{parse_ip}
use defrizer.Spec.Layers.{
  Layer, ethernet, ipv4, ipv6, tcp_length, tcp_is_whole, ip_layer, Verdict, runt, other, broken_tcp,
  segment, tcp_layer, above_ethernet, classify,
}

-- What a program makes of the IP parser's choice, with the continuation `k` at the TCP parser.
abbrev pub walk_ip {ℓ} :
    {X : Type ℓ} → Uapi → XdpMd → X → (Parsed → Option X) → Option Parsed → Option X
walk_ip u md passed k ip = elim ip [
  | none ↦ some passed
  | some r ↦
      if r.ret ==ℤ u.ipproto_tcp then (do t ← parse_tcphdr u md r.cursor; k t) else some passed
]

-- A policy, and a continuation that carries it out at every TCP header.
pub record Carries {X : Type 0} (u : Uapi) (md : XdpMd) (policy : Verdict → X)
    (k : Parsed → Option X) : Type 0 where
  pub on_broken : (nh : ℕ) → k (failed nh) ≡ some (policy broken_tcp)
  pub on_segment :
      (nh : ℕ) (xs : List ℕ)
      → At md nh xs
      → tcp_is_whole u xs ≡ true
      → k (behind nh (tcp_length u xs) (tcp_length u xs)) ≡ some (policy (segment xs))

module _ {X : Type 0} {u : Uapi} (e : Endian) {md : XdpMd} (layout : IsLayout u)
    (placed : IsPlaced md) {policy : Verdict → X} {k : Parsed → Option X}
    (carries : Carries u md policy k) where
  walk_ip-parsed :
      (p q : ℕ) (hdr : Option ℕ) (rest : List ℕ)
      → At md q rest
      → walk_ip u md (policy other) k (some (record { ret = pos p; cursor = q; hdr = hdr }))
        ≡ some (policy (tcp_layer u (some (p, rest))))
  unfolding tcp_layer
  walk_ip-parsed p q hdr rest here = elim (Bool-cases (p == u.ipproto_tcp)) [
    | inl tcp ↦ elim (Bool-cases (tcp_is_whole u rest)) [
      | inl whole ↦
          rw (tcp, parse_tcphdr_lem layout placed here, whole)
            (carries.on_segment q rest here whole)
      | inr broken ↦ rw (tcp, parse_tcphdr_lem layout placed here, broken) (carries.on_broken q)
    ]
    | inr not_tcp ↦ rw not_tcp
  ]

  -- A parser that reads the layer `l`, then the rest of the walk.
  walk_ip-Reads :
      (nh : ℕ) (l : Option Layer) (r : Option Parsed)
      → Reads (λ p. p) md nh l r
      → ((r >>= λ x. some (some x)) >>= walk_ip u md (policy other) k)
        ≡ some (policy (tcp_layer u l))
  walk_ip-Reads nh none r h = rw h (unfold tcp_layer in refl)
  walk_ip-Reads nh (some (p, rest)) r (q, h, here) = rw h (walk_ip-parsed p q (some nh) rest here)

  walk_from_ip :
      (p q : ℕ) (hdr : Option ℕ) (rest : List ℕ)
      → At md q rest
      → p < 2 ^ 16
      → (parse_ip u e md (record { ret = pos (bpf_runtime_htons e p); cursor = q; hdr = hdr })
          >>= walk_ip u md (policy other) k)
        ≡ some (policy (tcp_layer u (ip_layer u (p, rest))))
  unfolding parse_ip ip_layer
  walk_from_ip p q hdr rest here small = elim (Bool-cases (p == u.eth_p_ip)) [
    | inl v4 ↦
        rw (wire_test e p u.eth_p_ip small layout.ip_u16, v4)
          (walk_ip-Reads q (ipv4 u rest) (parse_iphdr u md q)
            (parse_iphdr-Reads layout placed here))
    | inr not_v4 ↦ elim (Bool-cases (p == u.eth_p_ipv6)) [
      | inl v6 ↦
          rw
            (
              wire_test e p u.eth_p_ip small layout.ip_u16,
              not_v4,
              wire_test e p u.eth_p_ipv6 small layout.ipv6_u16,
              v6,
            )
            (walk_ip-Reads q (ipv6 u rest) (parse_ip6hdr u md q)
              (parse_ip6hdr-Reads layout placed here))
      | inr not_v6 ↦
          rw
            (
              wire_test e p u.eth_p_ip small layout.ip_u16,
              not_v4,
              wire_test e p u.eth_p_ipv6 small layout.ipv6_u16,
              not_v6,
            )
            (unfold tcp_layer in refl)
    ]
  ]

  -- The end of the walk: the cases of the Ethernet parser.
  walk_link :
      (nh : ℕ) (l : Option Layer) (r : Option Parsed)
      → Reads (bpf_runtime_htons e) md nh l r
      → ((p : ℕ) (rest : List ℕ) → l ≡ some (p, rest) → p < 2 ^ 16)
      → (r >>= λ eth.
          if is_negative eth.ret
          then some (policy runt)
          else (parse_ip u e md eth >>= walk_ip u md (policy other) k))
        ≡ some (policy (above_ethernet u l))
  unfolding above_ethernet
  walk_link nh none r h small = rw h
  walk_link nh (some (p, rest)) r (q, h, here) small =
      rw h (walk_from_ip p q (some nh) rest here (small p rest refl))

  -- The whole walk comes out at `classify`, with no fault.
  pub walk_lem :
      (parse_ethhdr u e md md.data_start >>= λ eth.
      if is_negative eth.ret
      then some (policy runt)
      else (parse_ip u e md eth >>= walk_ip u md (policy other) k))
      ≡ some (policy (classify u md.frame))
  unfolding classify
  walk_lem =
      walk_link md.data_start (ethernet u md.frame) (parse_ethhdr u e md md.data_start)
        (parse_ethhdr-Reads e layout placed (At-start md)) (ethernet-lt u md.frame)
