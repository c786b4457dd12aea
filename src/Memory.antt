-- ===== src/Memory.antt =====
-- The packet that an XDP program is given, and reads from it. A read outside the packet is a
-- fault, `none`.
pub mod Laws
use mathlib.Core.Option
use defrizer.Common.{
  ℕ, ◌+◌, ◌-◌, ◌*◌, ◌%◌, ◌^◌, ◌≤◌, List, Option, none, some, leb, if◌then◌else◌, length, get_elem?,
  ptr_add, ◌>>=◌,
}
use defrizer.Endian.{Endian, little, big}

-- `struct xdp_md`, as far as the programs read it. The packet's octets lie from `data_start` (the
-- field `data`) up to `data_end`.
pub record XdpMd : Type 0 where
  pub data_start : ℕ
  pub frame : List ℕ
  pub rx_queue_index : ℕ

abbrev pub data_end : XdpMd → ℕ
data_end md = md.data_start + length md.frame

-- No packet lies at the very top of the address space, so sums of pointers and header sizes do not
-- wrap.
abbrev pub IsPlaced : XdpMd → Type 0
IsPlaced md = data_end md + 2 ^ 16 ≤ 2 ^ 64

module _ (md : XdpMd) where
  unfoldable pub load8 : ℕ → Option ℕ
  load8 a =
      if leb md.data_start a
      then Option.map (λ b. b % 256) (get_elem? md.frame (a - md.data_start))
      else none

  -- A 16-bit load at the byte order of the target.
  unfoldable pub load16 : Endian → ℕ → Option ℕ
  load16 little a = do b0 ← load8 a; b1 ← load8 (ptr_add a 1); some (b0 + b1 * 256)
  load16 big a = do b0 ← load8 a; b1 ← load8 (ptr_add a 1); some (b0 * 256 + b1)

  unfoldable pub load32 : Endian → ℕ → Option ℕ
  load32 little a = do
    w0 ← load16 little a
    w1 ← load16 little (ptr_add a 2)
    some (w0 + w1 * 2 ^ 16)
  load32 big a = do w0 ← load16 big a; w1 ← load16 big (ptr_add a 2); some (w0 * 2 ^ 16 + w1)
