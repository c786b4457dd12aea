-- ===== src/Driver/Linked/Polled.antt =====
-- The packets of `xdp_sock_prog` where `main` of dumpframes/src/dumpframes.go has run to a failed poll.
use Prim.Native.String.{String}
use defrizer.Common.{ℕ, ◌≡◌, refl, inr, none, some, pos, u32}
use defrizer.Endian.{Endian}
use defrizer.Uapi.{linux}
use defrizer.Memory.{XdpMd, IsPlaced}
use defrizer.Program.Action.{redirect, action_code}
use defrizer.Program.Sock.{SockHelpers, xdp_sock_prog}
use defrizer.Spec.Frame.{Frame, IsFrame, encode}
use defrizer.Maps.{MapCalls, LoadedProgram, loaded}
use defrizer.Maps.Kernel.{MapView, IsKernel}
use defrizer.Link.{NetLinkCalls}
use defrizer.Driver.{poll_failed}
use defrizer.Driver.Ensures.{Ensures-ends}
use defrizer.Driver.Frames.{Host, round, main}
use defrizer.Driver.Frames.Serving.{Serves}
use defrizer.Driver.Frames.Polled.{Polled-ends, main-IfPolled}
use defrizer.Driver.Linked.{Failure, linked}
use defrizer.Driver.Linked.Leaves.{LeavesMaps}
use defrizer.Driver.Linked.Diverts.{loop_diverts}

module _ {W S D E : Type 0} (maps : MapCalls W) (links : NetLinkCalls W) (looks : ℕ)
    (h : Host W LoadedProgram S D (Failure E)) where
  -- With maps that behave as `IsKernel` documents and are left alone by the socket library, gopacket
  -- and the log, and programs that are loaded with the handles of these maps: if `main` ends because a
  -- poll failed, then `Register` took a socket for the queue, some number of rounds followed, and in
  -- the state at which the round of the failed poll began `xdp_sock_prog` answers a frame that arrives
  -- on the queue, and is a whole TCP segment to port 7777 placed as `IsPlaced` says, with XDP_REDIRECT
  -- to that socket.
  pub main_diverts :
      (v : MapView W) (b : SockHelpers W) (program queues sockets fuel : ℕ) (name : String) (q : ℕ)
      (w w' : W) (err : Failure E) (e : Endian) (md : XdpMd) (f : Frame)
      → IsKernel maps b v queues sockets
      → LeavesMaps h v
      → ((w0 w1 : W) (p : LoadedProgram)
          → h.new_program w0 ≡ some (inr p, w1)
          → p ≡ loaded program queues sockets)
      → main (linked maps links looks h) fuel name q w ≡ some (poll_failed err, w')
      → u32 md.rx_queue_index ≡ u32 q
      → IsPlaced md
      → IsFrame f
      → md.frame ≡ encode f
      → f.dest ≡ 7777
      → (s : S) × (n : ℕ) × (w0 : W) × (w1 : W) × (w2 : W) × (w3 : W) × (w4 : W) × ((linked maps
              links looks h).register
            (loaded program queues sockets)
            q
            (h.fd s)
            w0
          ≡ some (none, w1))
        × Serves (linked maps links looks h) s n w1 w2
        × (round (linked maps links looks h) s w2 ≡ some (some err, w3))
        × (xdp_sock_prog b linux e md w2 ≡ some (pos (action_code redirect), w4))
        × (v.target w4 ≡ some (u32 (h.fd s)))
  unfolding linked
  main_diverts v b program queues sockets fuel name q w w' err e md f kernel leaves loads ends queue
        placed right sent port =
      let (p, is, registered) =
        Ensures-ends ends
          (main-IfPolled (linked maps links looks h) (λ p. p ≡ loaded program queues sockets) fuel
            name q w loads)
          err refl in
      let (n, w2, w3, serves, failed) = Polled-ends (linked maps links looks h) registered.loop in
      let s = registered.s in
      let taken : (linked maps links looks h).register (loaded program queues sockets) q (h.fd s)
            registered.before
          ≡ some (none, registered.start) =
        rw is at registered.taken in
      let (w4, answered, target) =
        loop_diverts maps links looks h v b program queues sockets s q n registered.before
          registered.start w2 e md f kernel leaves taken serves queue placed right sent port in
      (
        s, n, registered.before, registered.start, w2, w3, w4, taken, serves, failed, answered,
        target,
      )
