-- ===== src/Spec/Policy.antt =====
-- What each program is to do with a frame, by its verdict.
use defrizer.Common.{ℕ, List, [], ◌∷◌, ◌+◌, none, some, ◌==◌, if◌then◌else◌, u32, to_int, ℤ, pos}
use defrizer.Endian.{Endian}
use defrizer.Uapi.{Uapi}
use defrizer.Memory.{XdpMd}
use defrizer.Memory.Laws.{raw32}
use defrizer.Spec.Layers.{be16, Verdict, runt, other, broken_tcp, segment, classify}
use defrizer.Program.Action.{aborted, pass, action_code}
use defrizer.Program.Sock.{SockHelpers}
use defrizer.Program.Event.{EventHelpers, tcp_fmt, sizeof_tcp_fmt}

abbrev pub passes : ℤ
passes = pos (action_code pass)

abbrev pub aborts : ℤ
aborts = pos (action_code aborted)

-- The port of the service.
abbrev pub watched_port : ℕ
watched_port = 7777

module _ {W : Type 0} (h : SockHelpers W) (u : Uapi) (md : XdpMd) (w : W) where
  -- With a queue configuration at `qidconf`: broken frames are aborted, a segment to the port goes
  -- to the queue's socket if the configuration is set, and all else passes.
  unfoldable pub sock_policy : ℕ → Verdict → ℤ × W
  sock_policy qidconf runt = (aborts, w)
  sock_policy qidconf other = (passes, w)
  sock_policy qidconf broken_tcp = (aborts, w)
  sock_policy qidconf (segment xs) =
      if be16 xs u.tcphdr_dest == watched_port
      then (if h.read_int w qidconf == 0
          then (passes, w)
          else (let (out, w') = h.redirect_map w (u32 md.rx_queue_index) 0 in (to_int out, w')))
      else (passes, w)

  -- A queue with no configuration passes everything.
  unfoldable pub sock_spec : ℤ × W
  sock_spec = elim (h.map_lookup_elem w (u32 md.rx_queue_index)) [
    | none ↦ (passes, w)
    | some qidconf ↦ sock_policy qidconf (classify u md.frame)
  ]

module _ {W : Type 0} (h : EventHelpers W) where
  -- The seven octets "hello!" and NUL go out; an error, which is any result but 0 as an `int`,
  -- aborts the packet.
  unfoldable pub announced : W → ℤ × W
  announced w' =
      let (out, w'') = h.ringbuf_output w' (104 ∷ 101 ∷ 108 ∷ 108 ∷ 111 ∷ 33 ∷ 0 ∷ []) 7 0 in
      (if u32 out == 0 then passes else aborts, w'')

module _ {W : Type 0} (h : EventHelpers W) (u : Uapi) (e : Endian) (w : W) where
  -- The state after the segment is traced: its ports, and its sequence number as it lies on the
  -- wire, which is how the program prints it.
  unfoldable pub traced : List ℕ → W
  traced xs = h.trace_printk w tcp_fmt sizeof_tcp_fmt (
      be16 xs u.tcphdr_source
      ∷ be16 xs u.tcphdr_dest
      ∷ raw32 e (be16 xs u.tcphdr_seq) (be16 xs (u.tcphdr_seq + 2))
      ∷ [])

  -- Broken frames are aborted; a segment is traced, and announced if it goes to the port; all else
  -- passes.
  unfoldable pub event_policy : Verdict → ℤ × W
  event_policy runt = (aborts, w)
  event_policy other = (passes, w)
  event_policy broken_tcp = (aborts, w)
  event_policy (segment xs) =
      if be16 xs u.tcphdr_dest == watched_port then announced h (traced xs) else (passes, traced xs)
