-- ===== src/Program/Agreement.antt =====
-- The two XDP programs side by side, and what the announcing program leaves alone.
use defrizer.Common.{
  ℕ, ◌≡◌, ◌≢◌, ◌↔◌, refl, arith, inl, inr, List, some, Bool-cases, ◌==◌, ℤ, u32, to_int,
}
use Prim.Native.String.{String}
use defrizer.Endian.{Endian}
use defrizer.Uapi.{Uapi, IsLayout}
use defrizer.Memory.{XdpMd, IsPlaced}
use defrizer.Spec.Layers.{be16, Verdict, runt, other, broken_tcp, segment, classify}
use defrizer.Spec.Policy.{passes, aborts, sock_policy, event_policy, announced, traced}
use defrizer.Program.Action.{action_code}
use defrizer.Program.Sock.{SockHelpers, xdp_sock_prog}
use defrizer.Program.Sock.Refine.{sock_walk}
use defrizer.Program.Event.{EventHelpers, hello, perf_event_test}
use defrizer.Program.Event.Refine.{perf_event_test_refines}

module _ {V W : Type 0} (h : SockHelpers V) (g : EventHelpers W) (u : Uapi) (e : Endian)
    (md : XdpMd) (v : V) (w : W) (q : ℕ)
    (redirects : to_int ((h.redirect_map v (u32 md.rx_queue_index) 0).0) ≢ aborts)
    (outputs : (w' : W) → u32 ((g.ringbuf_output w' hello 7 0).0) ≡ 0) where
  passes-ne-aborts : passes ≢ aborts
  unfolding action_code
  passes-ne-aborts z = ground arith

  sock_segment-ne : (xs : List ℕ) → (sock_policy h u md v q (segment xs)).0 ≢ aborts
  unfolding sock_policy
  sock_segment-ne xs = elim (Bool-cases (be16 xs u.tcphdr_dest == 7777)) [
    | inl port ↦ elim (Bool-cases (h.read_int v q == 0)) [
      | inl off ↦ rw (port, off) passes-ne-aborts
      | inr on ↦ rw (port, on) redirects
    ]
    | inr not_port ↦ rw not_port passes-ne-aborts
  ]

  announced-passes : (w' : W) → (announced g w').0 ≡ passes
  unfolding announced
  announced-passes w' = ground (arith, outputs w')

  event_segment-ne : (xs : List ℕ) → (event_policy g u e w (segment xs)).0 ≢ aborts
  unfolding event_policy
  event_segment-ne xs = elim (Bool-cases (be16 xs u.tcphdr_dest == 7777)) [
    | inl port ↦ rw (port, announced-passes (traced g u e w xs)) passes-ne-aborts
    | inr not_port ↦ rw not_port passes-ne-aborts
  ]

  policies_agree :
      (verdict : Verdict)
      → ((sock_policy h u md v q verdict).0 ≡ aborts) ↔ ((event_policy g u e w verdict).0 ≡ aborts)
  unfolding sock_policy event_policy announced action_code
  policies_agree runt = (λ z. refl, λ z. refl)
  policies_agree other = (λ z. absurd (passes-ne-aborts z), λ z. absurd (passes-ne-aborts z))
  policies_agree broken_tcp = (λ z. refl, λ z. refl)
  policies_agree (segment xs) =
      (λ z. absurd (sock_segment-ne xs z), λ z. absurd (event_segment-ne xs z))

  -- With header sizes and offsets as `IsLayout` has them and the packet placed as `IsPlaced` says, on
  -- a queue with a configuration entry, on which a redirect does not come out as XDP_ABORTED, and
  -- with a ring buffer that takes every greeting: both programs return, and `xdp_sock_prog` aborts a
  -- frame exactly if `perf_event_test` does.
  pub variants_agree :
      IsLayout u
      → IsPlaced md
      → h.map_lookup_elem v (u32 md.rx_queue_index) ≡ some q
      → (r : ℤ × V) × (s : ℤ × W) × (xdp_sock_prog h u e md v ≡ some r)
        × (perf_event_test g u e md w ≡ some s)
        × ((r.0 ≡ aborts) ↔ (s.0 ≡ aborts))
  variants_agree layout placed found = (
    sock_policy h u md v q (classify u md.frame),
    event_policy g u e w (classify u md.frame),
    sock_walk h e md v layout placed q found,
    perf_event_test_refines g e md w layout placed,
    policies_agree (classify u md.frame),
  )

module _ {W X : Type 0} (g : EventHelpers W) (ring : W → X) (u : Uapi) (e : Endian) (md : XdpMd)
    (w : W)
    (printing : (w' : W) (fmt : String) (size : ℕ) (args : List ℕ)
      → ring (g.trace_printk w' fmt size args) ≡ ring w') where
  announcing_policy :
      (verdict : Verdict)
      → ring ((event_policy g u e w verdict).1) ≢ ring w
      → (xs : List ℕ) × (verdict ≡ segment xs) × (be16 xs u.tcphdr_dest ≡ 7777)
  unfolding event_policy traced
  announcing_policy runt ne = absurd (ne refl)
  announcing_policy other ne = absurd (ne refl)
  announcing_policy broken_tcp ne = absurd (ne refl)
  announcing_policy (segment xs) ne = elim (Bool-cases (be16 xs u.tcphdr_dest == 7777)) [
    | inl port ↦ (xs, refl, ground arith)
    | inr not_port ↦ absurd (ne (rw not_port (printing w _ _ _)))
  ]

  -- With header sizes and offsets as `IsLayout` has them and the packet placed as `IsPlaced` says, and
  -- where a trace leaves the ring buffer alone: if `perf_event_test` returns with the ring buffer
  -- changed, then the frame is a TCP segment to port 7777.
  pub event_announces_only :
      (w' : W) (ret : ℤ)
      → IsLayout u
      → IsPlaced md
      → perf_event_test g u e md w ≡ some (ret, w')
      → ring w' ≢ ring w
      → (xs : List ℕ) × (classify u md.frame ≡ segment xs) × (be16 xs u.tcphdr_dest ≡ 7777)
  event_announces_only w' ret layout placed returns ne =
      announcing_policy (classify u md.frame)
        (λ same. ne (cc (same, returns, perf_event_test_refines g e md w layout placed)))
