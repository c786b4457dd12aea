-- ===== src/Driver/Frames.antt =====
-- `main` of dumpframes/src/dumpframes.go: it attaches the redirecting program, opens an AF_XDP socket
-- for the queue, and prints the TCP segments that arrive there until a poll fails.
pub mod Ledger
pub mod Rounds
pub mod Calm
pub mod Release
pub mod Serving
pub mod Polled
pub mod Settling
pub mod Terminate
use Prim.Native.String.{String}
use defrizer.Common.{
  ℕ, zero, suc, ◌⊎◌, inl, inr, List, [], ◌∷◌, Bool, true, Option, none, some, ltb, if◌then◌else◌, ℤ,
  pos, negsuc, minus_one,
}
use defrizer.Driver.{
  Run, pure, ◌>>=◌, ◌>>◌, deferring, checked, either, NetInterface, find_ifindex, Exit,
  interfaces_failed, interface_missing, program_failed, attach_failed, socket_failed,
  register_failed, poll_failed,
}

-- What gopacket finds of a TCP layer in a frame, as far as it is printed.
pub record TcpLayer : Type 0 where
  pub src_port : ℕ
  pub dst_port : ℕ
  pub data_offset : ℕ
  pub syn : Bool
  pub fin : Bool
  pub ack : Bool
  pub payload : List ℕ

-- What is logged.
pub data Line : Type 0 where
  waiting : Line
  tcp_header : TcpLayer → Line
  tcp_data : List ℕ → Line

-- The calls of `main`: of the operating system, of the methods of `Program`, of the AF_XDP socket
-- library, of gopacket and of the log. `P`, `S` and `D` are programs, sockets and descriptors, and
-- `E` is an error.
pub record Host (W P S D E : Type 0) : Type 0 where
  pub interfaces : Run W (E ⊎ List NetInterface)
  pub new_program : Run W (E ⊎ P)
  pub close : P → Run W (Option E)
  pub attach : P → ℕ → Run W (Option E)
  pub detach : P → ℕ → Run W (Option E)
  pub new_socket : ℕ → ℕ → Run W (E ⊎ S)
  pub fd : S → ℕ
  pub register : P → ℕ → ℕ → Run W (Option E)
  pub unregister : P → ℕ → Run W (Option E)
  pub num_free_fill_slots : S → Run W ℕ
  pub get_descs : S → ℕ → Bool → Run W (List D)
  pub fill : S → List D → Run W ℕ
  pub poll : S → ℤ → Run W (E ⊎ (ℕ × ℕ))
  pub receive : S → ℕ → Run W (List D)
  pub get_frame : S → D → Run W (List ℕ)
  pub tcp_layer : List ℕ → Option TcpLayer
  pub printf : Line → Run W (Unit {0})

module _ {W P S D E : Type 0} (h : Host W P S D E) where
  -- The lines for one frame.
  unfoldable pub show_layer : Option TcpLayer → Run W (Unit {0})
  show_layer none = pure tt
  show_layer (some t) = do h.printf (tcp_header t); h.printf (tcp_data t.payload)

  -- The loop over the received descriptors.
  unfoldable pub show_frames : S → List D → Run W (Unit {0})
  show_frames s [] = pure tt
  show_frames s (d ∷ ds) = do
    frame ← h.get_frame s d
    show_layer (h.tcp_layer frame)
    show_frames s ds

  -- Free slots of the Fill ring are given descriptors that are not in use.
  unfoldable pub fill_free : S → ℕ → Run W (Unit {0})
  fill_free s n =
      if ltb 0 n then (do ds ← h.get_descs s n true; _ ← h.fill s ds; pure tt) else pure tt

  unfoldable pub show_received : S → ℕ → Run W (Unit {0})
  show_received s num_rx =
      if ltb 0 num_rx then (do ds ← h.receive s num_rx; show_frames s ds) else pure tt

  -- One round of the endless loop, with the error of its poll.
  unfoldable pub round : S → Run W (Option E)
  round s = do
    n ← h.num_free_fill_slots s
    fill_free s n
    h.printf waiting
    polled ← h.poll s minus_one
    either polled (λ err. pure (some err)) (λ r. do show_received s r.0; pure none)

  unfoldable pub rounds : ℕ → S → Run W (Exit E)
  rounds zero s = λ w. none
  rounds (suc fuel) s = do
    ended ← round s
    checked ended (λ err. pure (poll_failed err)) (rounds fuel s)

  -- From `Register` on.
  unfoldable pub serve : ℕ → P → ℕ → S → Run W (Exit E)
  serve fuel p queue_id s = do
    failure ← h.register p queue_id (h.fd s)
    checked failure (λ err. pure (register_failed err))
        (deferring (h.unregister p queue_id) (rounds fuel s))

  -- From `NewSocket` on.
  unfoldable pub open_socket : ℕ → P → ℕ → ℕ → Run W (Exit E)
  open_socket fuel p ifindex queue_id = do
    opened ← h.new_socket ifindex queue_id
    either opened (λ err. pure (socket_failed err)) (serve fuel p queue_id)

  -- From `Attach` on.
  unfoldable pub attach_and_serve : ℕ → P → ℕ → ℕ → Run W (Exit E)
  attach_and_serve fuel p ifindex queue_id = do
    failure ← h.attach p ifindex
    checked failure (λ err. pure (attach_failed err))
        (deferring (h.detach p ifindex) (open_socket fuel p ifindex queue_id))

  -- From `NewTCPSynProgram` on.
  unfoldable pub load_and_serve : ℕ → ℕ → ℕ → Run W (Exit E)
  load_and_serve fuel ifindex queue_id = do
    loaded ← h.new_program
    either loaded (λ err. pure (program_failed err))
        (λ p. deferring (h.close p) (attach_and_serve fuel p ifindex queue_id))

  -- From the search for the interface on.
  unfoldable pub with_interface : ℕ → ℤ → ℕ → Run W (Exit E)
  with_interface fuel (negsuc _) queue_id = pure interface_missing
  with_interface fuel (pos ifindex) queue_id = load_and_serve fuel ifindex queue_id

  -- `main`, with the values of its two flags, for at most `fuel` rounds of its loop.
  unfoldable pub main : ℕ → String → ℕ → Run W (Exit E)
  main fuel link_name queue_id = do
    found ← h.interfaces
    either found (λ err. pure (interfaces_failed err))
        (λ list. with_interface fuel (find_ifindex link_name list) queue_id)
