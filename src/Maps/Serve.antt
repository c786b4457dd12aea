-- ===== src/Maps/Serve.antt =====
-- The loader of dumpframes/program.go and `xdp_sock_prog` together, over the kernel's maps: which
-- packets reach a registered socket.
use defrizer.Common.{
  ℕ, ◌≡◌, ◌≢◌, refl, arith, ◌∙◌, ◌⊎◌, inl, inr, none, some, Bool-cases, ◌==◌, ◌<◌, pos, u32, true,
  false, Bool-cases, ltb,
}
use defrizer.Endian.{Endian}
use defrizer.Uapi.{linux, linux-IsLayout}
use defrizer.Memory.{XdpMd, IsPlaced}
use defrizer.Program.Action.{redirect, action_code}
use defrizer.Program.Sock.{SockHelpers, xdp_sock_prog}
use defrizer.Program.Sock.Refine.{sock_absent}
use defrizer.Program.Delivery.{sock_delivers}
use defrizer.Spec.Policy.{passes}
use defrizer.Spec.Frame.{Frame, IsFrame, encode}
use defrizer.Maps.{MapCalls, loaded, register, unregister, failed_to_delete, qidconf_map}
use defrizer.Maps.Kernel.{MapView, IsKernel, einval}
use defrizer.Maps.Outcome.{register-cases, unregister_lem}
use defrizer.Maps.Served.{Phase, Reach, Reach-IsServed, put_sockets-socket, IsServed}

pub one_ne_zero : ◌≢◌ {A = ℕ} 1 0
one_ne_zero = omega arith

module _ {W : Type 0} {k : MapCalls W} {h : SockHelpers W} {v : MapView W} {queues sockets : ℕ}
    (kernel : IsKernel k h v queues sockets) (program : ℕ) where
  -- The view of a queue after a call of `register` that returned nil.
  pub registered :
      (q fd : ℕ) (w w' : W)
      → register k (loaded program queues sockets) q fd w ≡ some (none, w')
      → (u32 q < qidconf_map.max_entries)
        × (v.entry w' (u32 q) ≡ 1)
        × (v.socket w' (u32 q) ≡ some (u32 fd))
  registered q fd w w' ok = elim (register-cases k program kernel q fd w w' none ok) [
    | inl (err, fails, same) ↦ cc fails
    | inr (inl (err, fails, p)) ↦ cc fails
    | inr (inr (w1, p1, p2)) ↦
        let same : (u32 q == u32 q) ≡ true = ground arith in
        let (entry, socket) = kernel.put_queues w1 w' (u32 q) 1 p2 (u32 q) in
        (
          kernel.put_in w1 w' (u32 q) 1 p2,
          rw (entry, same),
          socket ∙ put_sockets-socket kernel w w1 (u32 q) (u32 fd) p1,
        )
  ]

  -- A segment to the port on an enabled queue with a socket.
  pub redirected :
      (e : Endian) (md : XdpMd) (w : W) (f : Frame) (s : ℕ)
      → IsPlaced md
      → IsFrame f
      → md.frame ≡ encode f
      → f.dest ≡ 7777
      → u32 md.rx_queue_index < qidconf_map.max_entries
      → v.entry w (u32 md.rx_queue_index) ≢ 0
      → v.socket w (u32 md.rx_queue_index) ≡ some s
      → (w'' : W) × (xdp_sock_prog h linux e md w ≡ some (pos (action_code redirect), w''))
        × (v.target w'' ≡ some s)
  unfolding action_code
  redirected e md w f s placed right sent port in_range on found =
      let (p, lookup, read) = kernel.lookup_in w (u32 md.rx_queue_index) in_range in
      let (code, chosen) = kernel.redirect_found w (u32 md.rx_queue_index) s found in
      let to_port : (f.dest == 7777) ≡ true = ground arith in
      let enabled : (h.read_int w p == 0) ≡ false = ground arith in
      (
        (h.redirect_map w (u32 md.rx_queue_index) 0).1,
        sock_delivers h e md w placed f right sent p lookup ∙ rw (to_port, enabled, code) refl,
        chosen,
      )

  -- A segment to another port, and a segment on a queue that is not enabled.
  ignored :
      (e : Endian) (md : XdpMd) (w : W) (f : Frame)
      → IsPlaced md
      → IsFrame f
      → md.frame ≡ encode f
      → u32 md.rx_queue_index < qidconf_map.max_entries
      → ((f.dest == 7777) ≡ false) ⊎ (v.entry w (u32 md.rx_queue_index) ≡ 0)
      → xdp_sock_prog h linux e md w ≡ some (passes, w)
  ignored e md w f placed right sent in_range why =
      let (p, lookup, read) = kernel.lookup_in w (u32 md.rx_queue_index) in_range in
      sock_delivers h e md w placed f right sent p lookup ∙ elim (Bool-cases (f.dest == 7777)) [
        | inr elsewhere ↦ rw elsewhere
        | inl port ↦ elim why [
          | inl elsewhere ↦ cc (port, elsewhere)
          | inr disabled ↦ let off : (h.read_int w p == 0) ≡ true = ground arith in rw (port, off)
        ]
      ]

  -- With maps that behave as `IsKernel` documents: if `Register` of a queue returns nil, then
  -- `xdp_sock_prog` answers a frame that arrives on the queue in the state after the call, and is a
  -- whole TCP segment to port 7777 placed as `IsPlaced` says, with XDP_REDIRECT, and the redirect's
  -- target is the registered socket.
  pub register_serves :
      (q fd : ℕ) (w w' : W) (e : Endian) (md : XdpMd) (f : Frame)
      → register k (loaded program queues sockets) q fd w ≡ some (none, w')
      → u32 md.rx_queue_index ≡ u32 q
      → IsPlaced md
      → IsFrame f
      → md.frame ≡ encode f
      → f.dest ≡ 7777
      → (w'' : W) × (xdp_sock_prog h linux e md w' ≡ some (pos (action_code redirect), w''))
        × (v.target w'' ≡ some (u32 fd))
  register_serves q fd w w' e md f ok queue placed right sent port =
      let (in_range, entry, socket) = registered q fd w w' ok in
      redirected e md w' f (u32 fd) placed right sent port (rw queue in_range)
        (rw (queue, entry) one_ne_zero) (rw queue socket)

  -- With maps that behave as `IsKernel` documents: `Unregister`, called in the state after a
  -- `Register` of the queue that returned nil, returns EINVAL, since `qidconf_map` is an array map,
  -- and `xdp_sock_prog` goes on to answer a frame that arrives on the queue, and is a whole TCP
  -- segment to port 7777 placed as `IsPlaced` says, with XDP_REDIRECT to the same socket.
  pub unregister_keeps :
      (q fd : ℕ) (w w' : W) (e : Endian) (md : XdpMd) (f : Frame)
      → register k (loaded program queues sockets) q fd w ≡ some (none, w')
      → u32 md.rx_queue_index ≡ u32 q
      → IsPlaced md
      → IsFrame f
      → md.frame ≡ encode f
      → f.dest ≡ 7777
      → (w1 w'' : W) × (unregister k (loaded program queues sockets) q w'
          ≡ some (some (failed_to_delete einval), w1))
        × (xdp_sock_prog h linux e md w1 ≡ some (pos (action_code redirect), w''))
        × (v.target w'' ≡ some (u32 fd))
  unregister_keeps q fd w w' e md f ok queue placed right sent port =
      let (w'', serves, target) =
        register_serves q fd w w' e md f ok queue placed right sent port in
      (w', w'', unregister_lem k program kernel q w', serves, target)

  -- With maps that behave as `IsKernel` documents, from a state in which no queue is enabled,
  -- whatever calls of `Register` and `Unregister` are made, failing ones included, and whatever
  -- packets arrive, before, between and behind the two updates of a `Register`: a frame with a
  -- whole TCP segment, placed as `IsPlaced` says, gets XDP_PASS with the maps unchanged, or
  -- XDP_REDIRECT to the socket of its queue. It is never aborted for want of a socket.
  pub never_aborted :
      (e : Endian) (md : XdpMd) (phase : Phase) (w0 w : W) (f : Frame)
      → ((i : ℕ) → v.entry w0 i ≡ 0)
      → Reach k h program queues sockets w0 phase w
      → IsPlaced md
      → IsFrame f
      → md.frame ≡ encode f
      → (xdp_sock_prog h linux e md w ≡ some (passes, w))
        ⊎ ((s : ℕ) × (w'' : W) × (xdp_sock_prog h linux e md w
              ≡ some (pos (action_code redirect), w''))
            × (v.socket w (u32 md.rx_queue_index) ≡ some s)
            × (v.target w'' ≡ some s))
  unfolding IsServed
  never_aborted e md phase w0 w f off reach placed right sent =
      let i = u32 md.rx_queue_index in
      elim (Bool-cases (ltb i qidconf_map.max_entries)) [
        | inr out_of_range ↦
            inl (sock_absent h e md w linux-IsLayout placed (kernel.lookup_out w i (ground arith)))
        | inl in_range ↦ elim (Bool-cases (v.entry w i == 0)) [
          | inl disabled ↦
              inl (ignored e md w f placed right sent (ground arith) (inr (ground arith)))
          | inr enabled ↦ elim (Bool-cases (f.dest == 7777)) [
            | inr elsewhere ↦
                inl (ignored e md w f placed right sent (ground arith) (inl elsewhere))
            | inl port ↦
                let (s, found) = Reach-IsServed kernel program off reach i (ground arith) in
                let (w'', serves, target) =
                  redirected e md w f s placed right sent (ground arith) (ground arith)
                    (ground arith) found in
                inr (s, w'', serves, found, target)
          ]
        ]
      ]
