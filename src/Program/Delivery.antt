-- ===== src/Program/Delivery.antt =====
-- The programs on whole TCP segments, and what the redirecting program leaves alone.
use defrizer.Common.{
  ℕ, ◌≡◌, ◌≢◌, refl, arith, ◌∙◌, inl, inr, List, some, Option-cases, Bool-cases, ◌==◌,
  if◌then◌else◌, ℤ, u32, to_int,
}
use defrizer.Endian.{Endian}
use defrizer.Uapi.{Uapi, IsLayout, linux, linux-IsLayout}
use defrizer.Memory.{XdpMd, IsPlaced}
use defrizer.Spec.Layers.{be16, Verdict, runt, other, broken_tcp, segment, classify}
use defrizer.Spec.Policy.{passes, sock_policy, event_policy, announced, traced}
use defrizer.Spec.Frame.{Frame, IsFrame, encode, tcp_octets}
use defrizer.Spec.Frame.Encode.{classify-encode, dest_lem}
use defrizer.Program.Sock.{SockHelpers, xdp_sock_prog}
use defrizer.Program.Sock.Refine.{sock_walk, sock_absent}
use defrizer.Program.Event.{EventHelpers, perf_event_test}
use defrizer.Program.Event.Refine.{perf_event_test_refines}

module _ {W : Type 0} (h : SockHelpers W) (e : Endian) (md : XdpMd) (w : W) (placed : IsPlaced md)
    (f : Frame) (right : IsFrame f) (sent : md.frame ≡ encode f) where
  -- A frame with a whole TCP segment over IPv4 or IPv6, behind at most two VLAN tags and whatever
  -- its fragment offset, options, flags and payload, that is placed as `IsPlaced` says and arrives
  -- on a queue with a configuration entry: with the documented header layout, on both byte orders,
  -- `xdp_sock_prog` returns the result of redirecting it to the queue's socket if its destination
  -- port is 7777 and the entry is not 0, and XDP_PASS with the maps unchanged otherwise.
  pub sock_delivers :
      (qidconf : ℕ)
      → h.map_lookup_elem w (u32 md.rx_queue_index) ≡ some qidconf
      → xdp_sock_prog h linux e md w
        ≡ some (
            if f.dest == 7777
            then (if h.read_int w qidconf == 0
                then (passes, w)
                else (let (out, w') = h.redirect_map w (u32 md.rx_queue_index) 0 in
                    (to_int out, w')))
            else (passes, w))
  unfolding sock_policy
  sock_delivers qidconf found =
      sock_walk h e md w linux-IsLayout placed qidconf found
      ∙ (rw (sent, classify-encode f right, dest_lem f right) refl)

module _ {W : Type 0} (h : EventHelpers W) (e : Endian) (md : XdpMd) (w : W) (placed : IsPlaced md)
    (f : Frame) (right : IsFrame f) (sent : md.frame ≡ encode f) where
  -- A frame with a whole TCP segment over IPv4 or IPv6, behind at most two VLAN tags and whatever
  -- its fragment offset, options, flags and payload, that is placed as `IsPlaced` says: with the
  -- documented header layout, on both byte orders, `perf_event_test` traces the segment, and
  -- announces it on the ring buffer if its destination port is 7777; otherwise it returns XDP_PASS.
  pub event_delivers :
      perf_event_test h linux e md w
      ≡ some (
          if f.dest == 7777
          then announced h (traced h linux e w (tcp_octets f))
          else (passes, traced h linux e w (tcp_octets f)))
  unfolding event_policy
  event_delivers =
      perf_event_test_refines h e md w linux-IsLayout placed
      ∙ (rw (sent, classify-encode f right, dest_lem f right) refl)

module _ {W : Type 0} (h : SockHelpers W) (u : Uapi) (md : XdpMd) (w : W) where
  -- Why a packet can change the maps: its queue is configured with an entry that is not 0, and it is
  -- a TCP segment to the port.
  pub record Watched : Type 0 where
    pub qidconf : ℕ
    pub xs : List ℕ
    pub configured : h.map_lookup_elem w (u32 md.rx_queue_index) ≡ some qidconf
    pub enabled : h.read_int w qidconf ≢ 0
    pub is_segment : classify u md.frame ≡ segment xs
    pub to_port : be16 xs u.tcphdr_dest ≡ 7777

module _ {W : Type 0} (h : SockHelpers W) {u : Uapi} (md : XdpMd) (w : W) where
  -- A verdict on which the policy changes the maps.
  policy_changes :
      (q : ℕ) (v : Verdict)
      → classify u md.frame ≡ v
      → h.map_lookup_elem w (u32 md.rx_queue_index) ≡ some q
      → (sock_policy h u md w q v).1 ≢ w
      → Watched h u md w
  unfolding sock_policy
  policy_changes q runt c found ne = absurd (ne refl)
  policy_changes q other c found ne = absurd (ne refl)
  policy_changes q broken_tcp c found ne = absurd (ne refl)
  policy_changes q (segment xs) c found ne = elim (Bool-cases (be16 xs u.tcphdr_dest == 7777)) [
    | inl port ↦ elim (Bool-cases (h.read_int w q == 0)) [
      | inl off ↦ absurd (ne (rw (port, off)))
      | inr on ↦ record {
        qidconf = q;
        xs = xs;
        configured = found;
        enabled = ground arith;
        is_segment = c;
        to_port = ground arith;
      }
    ]
    | inr not_port ↦ absurd (ne (rw not_port))
  ]

  -- With header sizes and offsets as `IsLayout` has them and the packet placed as `IsPlaced` says:
  -- if `xdp_sock_prog` returns with the maps changed, then the packet came on a queue with a
  -- configuration entry that is not 0, and is a TCP segment to port 7777.
  pub sock_diverts_only :
      (e : Endian) (w' : W) (ret : ℤ)
      → IsLayout u
      → IsPlaced md
      → xdp_sock_prog h u e md w ≡ some (ret, w')
      → w' ≢ w
      → Watched h u md w
  sock_diverts_only e w' ret layout placed returns changed =
      elim (Option-cases (h.map_lookup_elem w (u32 md.rx_queue_index))) [
        | inl absent ↦ absurd (changed (cc (returns, sock_absent h e md w layout placed absent)))
        | inr (q, found) ↦
            policy_changes q (classify u md.frame) refl found
              (λ same. changed (cc (returns, same, sock_walk h e md w layout placed q found)))
      ]
