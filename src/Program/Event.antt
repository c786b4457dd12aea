-- ===== src/Program/Event.antt =====
-- `perf_event_test` of perf_event/src/ebpf/tcp_syn_kern.c: TCP segments to port 7777 are announced
-- on a ring buffer, and go on to the network stack.
pub mod Refine
use Prim.Native.String.{String}
use defrizer.Common.{
  ℕ, List, [], ◌∷◌, false, Option, none, some, ◌==◌, if◌then◌else◌, ◌>>=◌, ptr_add, ℤ, pos,
  is_negative, ◌==ℤ◌, to_int,
}
use defrizer.Endian.{Endian, bpf_ntohs}
use defrizer.Uapi.{Uapi}
use defrizer.Memory.{XdpMd, load16, load32}
use defrizer.Parse.{Parsed, parse_ethhdr, parse_tcphdr}
use defrizer.Program.Action.{aborted, pass, action_code}
use defrizer.Program.Sock.{parse_ip}

abbrev pub event_port : ℕ
event_port = 7777

-- "hello!" with its final NUL.
abbrev pub hello : List ℕ
hello = 104 ∷ 101 ∷ 108 ∷ 108 ∷ 111 ∷ 33 ∷ 0 ∷ []

abbrev pub sizeof_hello : ℕ
sizeof_hello = 7

-- The format of the program's `bpf_printk`, and its size with the final NUL.
abbrev pub tcp_fmt : String
tcp_fmt = "TCP(source=%u, dest=%u, seq=%d, "

abbrev pub sizeof_tcp_fmt : ℕ
sizeof_tcp_fmt = 33

-- The kernel's helpers as this program calls them, over the state `W` of the trace and of the ring
-- buffer `events`: `bpf_trace_printk(fmt, size, arguments)`, and `bpf_ringbuf_output(&events, bytes,
-- size, flags)`, whose result is a 64-bit pattern.
pub record EventHelpers (W : Type 0) : Type 0 where
  pub trace_printk : W → String → ℕ → List ℕ → W
  pub ringbuf_output : W → List ℕ → ℕ → ℕ → ℕ × W

module _ {W : Type 0} (h : EventHelpers W) where
  -- `bpf_printk`
  abbrev pub bpf_printk : W → String → ℕ → List ℕ → W
  bpf_printk w fmt size args = h.trace_printk w fmt size args

  -- The output of the event; `ret` is an `int`.
  unfoldable pub announce : W → ℤ × W
  announce w =
      let (out, w') = h.ringbuf_output w hello sizeof_hello 0 in
      if to_int out ==ℤ 0 then (pos (action_code pass), w') else (pos (action_code aborted), w')

module _ {W : Type 0} (h : EventHelpers W) (u : Uapi) (e : Endian) (md : XdpMd) (w : W) where
  -- From the TCP header on.
  unfoldable pub event_tcp : Parsed → Option (ℤ × W)
  event_tcp t = if is_negative t.ret then some (pos (action_code aborted), w) else do
    tcp ← t.hdr
    source ← load16 md e (ptr_add tcp u.tcphdr_source)
    dest ← load16 md e (ptr_add tcp u.tcphdr_dest)
    seq ← load32 md e (ptr_add tcp u.tcphdr_seq)
    let args = bpf_ntohs e false source ∷ bpf_ntohs e false dest ∷ seq ∷ []
    let w' = bpf_printk h w tcp_fmt sizeof_tcp_fmt args
    if bpf_ntohs e false dest == event_port
        then some (announce h w')
        else some (pos (action_code pass), w')

  -- From the EtherType on.
  unfoldable pub event_ip : Parsed → Option (ℤ × W)
  event_ip eth = do
    ip ← parse_ip u e md eth
    elim ip [
      | none ↦ some (pos (action_code pass), w)
      | some r ↦
          if r.ret ==ℤ u.ipproto_tcp
          then (do t ← parse_tcphdr u md r.cursor; event_tcp t)
          else some (pos (action_code pass), w)
    ]

  unfoldable pub perf_event_test : Option (ℤ × W)
  perf_event_test = do
    eth ← parse_ethhdr u e md md.data_start
    if is_negative eth.ret then some (pos (action_code aborted), w) else event_ip eth
