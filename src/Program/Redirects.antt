-- ===== src/Program/Redirects.antt =====
-- Which frames `xdp_sock_prog` redirects.
use defrizer.Common.{
  ℕ, ◌≡◌, refl, sym, arith, inl, inr, List, some, Bool-cases, Option-cases, ◌==◌, pos, u32,
}
use defrizer.Endian.{Endian}
use defrizer.Uapi.{linux, linux-IsLayout}
use defrizer.Memory.{XdpMd, IsPlaced}
use defrizer.Spec.Layers.{be16, Verdict, runt, other, broken_tcp, segment, classify}
use defrizer.Spec.Policy.{sock_policy, sock_spec}
use defrizer.Program.Action.{redirect, action_code}
use defrizer.Program.Sock.{SockHelpers, xdp_sock_prog}
use defrizer.Program.Sock.Refine.{xdp_sock_prog_refines}

-- A TCP segment to port 7777.
abbrev pub IsWatched : List ℕ → Type 0
IsWatched frame =
    (xs : List ℕ) × (classify linux frame ≡ segment xs) × (be16 xs (linux.tcphdr_dest) ≡ 7777)

-- A frame that the program has answered with XDP_REDIRECT, in whatever state.
pub data Redirected {W : Type 0} (b : SockHelpers W) (frame : List ℕ) : Type 0 where
  redirected :
      (e : Endian) (md : XdpMd) (w w' : W)
      → md.frame ≡ frame
      → IsPlaced md
      → xdp_sock_prog b linux e md w ≡ some (pos (action_code redirect), w')
      → Redirected b frame

module _ {W : Type 0} (b : SockHelpers W) (md : XdpMd) (w : W) where
  policy-IsWatched :
      (q : ℕ) (verdict : Verdict)
      → (sock_policy b linux md w q verdict).0 ≡ pos (action_code redirect)
      → (xs : List ℕ) × (verdict ≡ segment xs) × (be16 xs (linux.tcphdr_dest) ≡ 7777)
  unfolding sock_policy action_code
  policy-IsWatched q runt e = absurd (ground arith)
  policy-IsWatched q other e = absurd (ground arith)
  policy-IsWatched q broken_tcp e = absurd (ground arith)
  policy-IsWatched q (segment xs) e = elim (Bool-cases (be16 xs (linux.tcphdr_dest) == 7777)) [
    | inl port ↦ (xs, refl, ground arith)
    | inr elsewhere ↦ absurd (ground arith)
  ]

  spec-IsWatched : (sock_spec b linux md w).0 ≡ pos (action_code redirect) → IsWatched md.frame
  unfolding sock_spec action_code
  spec-IsWatched e = elim (Option-cases (b.map_lookup_elem w (u32 md.rx_queue_index))) [
    | inl absent ↦ absurd (ground arith)
    | inr (q, found) ↦ policy-IsWatched q (classify linux md.frame) (rw (found, sock_spec) at e)
  ]

pub Redirected-IsWatched :
    {W : Type 0} (b : SockHelpers W) (frame : List ℕ) → Redirected b frame → IsWatched frame
Redirected-IsWatched b frame (redirected e md w w' same placed ran) =
    let code : (sock_spec b linux md w).0 ≡ pos (action_code redirect) =
      cc (ran, xdp_sock_prog_refines b e md w linux-IsLayout placed) in
    rw (sym same) (spec-IsWatched b md w code)
