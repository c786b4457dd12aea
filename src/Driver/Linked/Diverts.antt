-- ===== src/Driver/Linked/Diverts.antt =====
-- The packets of `xdp_sock_prog` while the loop of `main` runs.
use defrizer.Common.{ℕ, ◌≡◌, refl, ◌∙◌, Option, none, some, pos, u32}
use defrizer.Endian.{Endian}
use defrizer.Uapi.{linux}
use defrizer.Memory.{XdpMd, IsPlaced}
use defrizer.Program.Action.{redirect, action_code}
use defrizer.Program.Sock.{SockHelpers, xdp_sock_prog}
use defrizer.Spec.Frame.{Frame, IsFrame, encode}
use defrizer.Maps.{MapCalls, LoadedProgram, ProgramError, loaded, register}
use defrizer.Maps.Kernel.{MapView, IsKernel}
use defrizer.Maps.Serve.{registered, redirected, one_ne_zero}
use defrizer.Link.{NetLinkCalls}
use defrizer.Driver.Frames.{Host}
use defrizer.Driver.Frames.Serving.{Serves}
use defrizer.Driver.Linked.{Failure, of_program, outcome, linked}
use defrizer.Driver.Linked.Leaves.{SameMaps, LeavesMaps, Serves-SameMaps}

module _ {W S D E : Type 0} (maps : MapCalls W) (links : NetLinkCalls W) (looks : ℕ)
    (h : Host W LoadedProgram S D (Failure E)) where
  linked-LeavesMaps : (v : MapView W) → LeavesMaps h v → LeavesMaps (linked maps links looks h) v
  unfolding linked
  linked-LeavesMaps v leaves = record {
    slots_leaves = leaves.slots_leaves;
    descs_leaves = leaves.descs_leaves;
    fill_leaves = leaves.fill_leaves;
    poll_leaves = leaves.poll_leaves;
    receive_leaves = leaves.receive_leaves;
    frame_leaves = leaves.frame_leaves;
    printf_leaves = leaves.printf_leaves;
  }

  outcome-registered :
      (o : Option (Option ProgramError × W)) (w1 : W)
      → outcome {G = Failure E} of_program o ≡ some (none, w1)
      → o ≡ some (none, w1)
  outcome-registered none w1 e = cc e
  outcome-registered (some (none, w)) w1 e = cc e
  outcome-registered (some (some err, w)) w1 e = cc e

  linked-register :
      (p : LoadedProgram) (q fd : ℕ) (w w1 : W)
      → (linked maps links looks h).register p q fd w ≡ some (none, w1)
      → register maps p q fd w ≡ some (none, w1)
  unfolding linked
  linked-register p q fd w w1 e = outcome-registered (register maps p q fd w) w1 e

  -- With maps that behave as `IsKernel` documents and are left alone by the socket library, gopacket
  -- and the log: if `Register` of the queue returns nil and `main`'s loop then runs through any number
  -- of rounds, `xdp_sock_prog` answers a frame that arrives on the queue after these, and is a whole
  -- TCP segment to port 7777 placed as `IsPlaced` says, with XDP_REDIRECT to the registered socket.
  pub loop_diverts :
      (v : MapView W) (b : SockHelpers W) (program queues sockets : ℕ) (s : S) (q n : ℕ)
      (w w1 w2 : W) (e : Endian) (md : XdpMd) (f : Frame)
      → IsKernel maps b v queues sockets
      → LeavesMaps h v
      → (linked maps links looks h).register (loaded program queues sockets) q (h.fd s) w
        ≡ some (none, w1)
      → Serves (linked maps links looks h) s n w1 w2
      → u32 md.rx_queue_index ≡ u32 q
      → IsPlaced md
      → IsFrame f
      → md.frame ≡ encode f
      → f.dest ≡ 7777
      → (w3 : W) × (xdp_sock_prog b linux e md w2 ≡ some (pos (action_code redirect), w3))
        × (v.target w3 ≡ some (u32 (h.fd s)))
  unfolding SameMaps
  loop_diverts v b program queues sockets s q n w w1 w2 e md f kernel leaves ok serves queue placed
        right sent port =
      let (in_range, entry, socket) =
        registered kernel program q (h.fd s) w w1 (linked-register _ q (h.fd s) w w1 ok) in
      let same =
        Serves-SameMaps (linked maps links looks h) v (linked-LeavesMaps v leaves) w1 s n w1 w2
          serves (λ j. (refl, refl)) in
      redirected kernel program e md w2 f (u32 (h.fd s)) placed right sent port (rw queue in_range)
        (rw (queue, (same (u32 q)).0, entry) one_ne_zero) (rw queue ((same (u32 q)).1 ∙ socket))
