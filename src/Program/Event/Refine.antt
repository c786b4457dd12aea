-- ===== src/Program/Event/Refine.antt =====
-- `perf_event_test` against its policy.
use defrizer.Common.{ℕ, ◌≡◌, refl, arith, List, true, some}
use defrizer.Endian.{Endian}
use defrizer.Endian.Laws.{ntohs-runtime_htons}
use defrizer.Uapi.{Uapi, IsLayout}
use defrizer.Memory.{XdpMd, IsPlaced}
use defrizer.Memory.Laws.{At, load16-At, load32-At, be16-lt}
use defrizer.Spec.Layers.{be16, tcp_length, tcp_is_whole, segment, classify}
use defrizer.Spec.Policy.{event_policy, traced, announced}
use defrizer.Parse.Refine.{behind}
use defrizer.Program.Walk.{Carries, walk_lem}
use defrizer.Program.Event.{EventHelpers, announce, event_tcp, event_ip, perf_event_test}

module _ {W : Type 0} (h : EventHelpers W) {u : Uapi} (e : Endian) (md : XdpMd) (w : W)
    (layout : IsLayout u) (placed : IsPlaced md) where
  announce-eq-announced : (w' : W) → announce h w' ≡ announced h w'
  unfolding announce announced
  announce-eq-announced w' = ground arith

  event_tcp-segment :
      (nh : ℕ) (xs : List ℕ)
      → At md nh xs
      → tcp_is_whole u xs ≡ true
      → event_tcp h u e md w (behind nh (tcp_length u xs) (tcp_length u xs))
        ≡ some (event_policy h u e w (segment xs))
  unfolding event_tcp event_policy tcp_is_whole traced
  event_tcp-segment nh xs here whole = ground (
    arith,
    load16-At placed here e u.tcphdr_source,
    load16-At placed here e u.tcphdr_dest,
    load32-At placed here e u.tcphdr_seq,
    ntohs-runtime_htons e (be16 xs u.tcphdr_source) (be16-lt xs u.tcphdr_source),
    ntohs-runtime_htons e (be16 xs u.tcphdr_dest) (be16-lt xs u.tcphdr_dest),
    announce-eq-announced (traced h u e w xs),
    layout.source_in,
    layout.dest_in,
    layout.seq_in,
  )

  event_tcp-Carries : Carries u md (event_policy h u e w) (event_tcp h u e md w)
  event_tcp-Carries = record {
    on_broken = λ nh. unfold event_tcp event_policy in refl;
    on_segment = event_tcp-segment;
  }

  -- With header sizes and offsets as `IsLayout` has them and the packet placed as `IsPlaced` says,
  -- on every frame and on both byte orders `perf_event_test` reads no octet outside the packet. It
  -- aborts, with nothing traced, a frame shorter than an Ethernet header and one with a TCP header
  -- that is truncated or too short by its own length field. It traces the ports and the sequence
  -- number of every other TCP segment, and for one to port 7777 writes the greeting to the ring
  -- buffer and aborts if that failed. All else passes, with nothing traced.
  pub perf_event_test_refines :
      perf_event_test h u e md w ≡ some (event_policy h u e w (classify u md.frame))
  unfolding perf_event_test event_ip event_policy
  perf_event_test_refines = walk_lem e layout placed event_tcp-Carries
