-- ===== src/Program/Sock/Refine.antt =====
-- `xdp_sock_prog` against its policy.
use defrizer.Common.{ℕ, ◌≡◌, refl, arith, List, true, none, some, Option-cases, inl, inr, u32}
use defrizer.Endian.{Endian}
use defrizer.Endian.Laws.{ntohs-runtime_htons}
use defrizer.Uapi.{Uapi, IsLayout}
use defrizer.Memory.{XdpMd, IsPlaced}
use defrizer.Memory.Laws.{At, load16-At, be16-lt}
use defrizer.Spec.Layers.{be16, tcp_length, tcp_is_whole, segment, classify}
use defrizer.Spec.Policy.{passes, sock_policy, sock_spec}
use defrizer.Parse.Refine.{behind}
use defrizer.Program.Walk.{Carries, walk_lem}
use defrizer.Program.Sock.{SockHelpers, sock_tcp, sock_ip, xdp_sock_prog}

module _ {W : Type 0} (h : SockHelpers W) {u : Uapi} (e : Endian) (md : XdpMd) (w : W)
    (layout : IsLayout u) (placed : IsPlaced md) where
  sock_tcp-segment :
      (index qidconf nh : ℕ) (xs : List ℕ)
      → index ≡ u32 md.rx_queue_index
      → At md nh xs
      → tcp_is_whole u xs ≡ true
      → sock_tcp h u e md w index qidconf (behind nh (tcp_length u xs) (tcp_length u xs))
        ≡ some (sock_policy h u md w qidconf (segment xs))
  unfolding sock_tcp sock_policy tcp_is_whole
  sock_tcp-segment index qidconf nh xs i here whole = ground (
    arith,
    load16-At placed here e u.tcphdr_dest,
    ntohs-runtime_htons e (be16 xs u.tcphdr_dest) (be16-lt xs u.tcphdr_dest),
    layout.dest_in,
  )

  sock_tcp-Carries :
      (qidconf : ℕ)
      → Carries u md
          (sock_policy h u md w qidconf)
          (sock_tcp h u e md w (u32 md.rx_queue_index) qidconf)
  sock_tcp-Carries qidconf = record {
    on_broken = λ nh. unfold sock_tcp sock_policy in refl;
    on_segment = λ nh xs. sock_tcp-segment (u32 md.rx_queue_index) qidconf nh xs refl;
  }

  -- The program from the Ethernet header on, for a configured queue.
  pub sock_walk :
      (qidconf : ℕ)
      → h.map_lookup_elem w (u32 md.rx_queue_index) ≡ some qidconf
      → xdp_sock_prog h u e md w ≡ some (sock_policy h u md w qidconf (classify u md.frame))
  unfolding xdp_sock_prog sock_ip sock_policy
  sock_walk qidconf found =
      rw (found, xdp_sock_prog) (walk_lem e layout placed (sock_tcp-Carries qidconf))

  -- A queue with no configuration entry.
  pub sock_absent :
      h.map_lookup_elem w (u32 md.rx_queue_index) ≡ none
      → xdp_sock_prog h u e md w ≡ some (passes, w)
  unfolding xdp_sock_prog
  sock_absent absent = rw (absent, xdp_sock_prog)

  -- With header sizes and offsets as `IsLayout` has them and the packet placed as `IsPlaced` says,
  -- on every frame and on both byte orders `xdp_sock_prog` reads no octet outside the packet and
  -- returns what the specification says of the frame: XDP_PASS for a queue with no configuration
  -- entry; else XDP_ABORTED for a frame shorter than an Ethernet header and for a TCP header that
  -- is truncated or too short by its own length field; for a TCP segment to port 7777, if the
  -- queue's entry is not 0, the result of redirecting it to that queue's socket; and XDP_PASS for
  -- all else. Only the redirect changes the state of the maps.
  pub xdp_sock_prog_refines : xdp_sock_prog h u e md w ≡ some (sock_spec h u md w)
  unfolding sock_spec xdp_sock_prog
  xdp_sock_prog_refines = elim (Option-cases (h.map_lookup_elem w (u32 md.rx_queue_index))) [
    | inl absent ↦ rw (absent, xdp_sock_prog, sock_spec)
    | inr (qidconf, found) ↦ rw (sock_walk qidconf found, found, sock_spec)
  ]
