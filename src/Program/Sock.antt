-- ===== src/Program/Sock.antt =====
-- `xdp_sock_prog` of dumpframes/src/ebpf/tcp_syn_kern.c: TCP segments to port 7777 go to the AF_XDP
-- socket that is bound to their receive queue.
pub mod Refine
use defrizer.Common.{
  ℕ, true, false, Option, none, some, ◌==◌, if◌then◌else◌, ◌>>=◌, u32, ptr_add, ℤ, pos, is_negative,
  ◌==ℤ◌, to_int,
}
use defrizer.Endian.{Endian, bpf_htons, bpf_ntohs}
use defrizer.Uapi.{Uapi}
use defrizer.Memory.{XdpMd, load16}
use defrizer.Parse.{Parsed, parse_ethhdr, parse_iphdr, parse_ip6hdr, parse_tcphdr}
use defrizer.Program.Action.{aborted, pass, action_code}

-- The port whose segments are taken from the network stack.
abbrev pub redirect_port : ℕ
redirect_port = 7777

-- The kernel's helpers as this program calls them, over the state `W` of the maps: the pointer that
-- `bpf_map_lookup_elem(&qidconf_map, &index)` gives (`none` for NULL), the `int` that such a pointer
-- leads to, and `bpf_redirect_map(&xsks_map, index, flags)`, whose result is a 64-bit pattern.
pub record SockHelpers (W : Type 0) : Type 0 where
  pub map_lookup_elem : W → ℕ → Option ℕ
  pub read_int : W → ℕ → ℕ
  pub redirect_map : W → ℕ → ℕ → ℕ × W

module _ (u : Uapi) (e : Endian) (md : XdpMd) where
  -- The choice of the IP parser by the EtherType; `none` inside is the `goto out` of another type.
  unfoldable pub parse_ip : Parsed → Option (Option Parsed)
  parse_ip eth =
      if eth.ret ==ℤ bpf_htons e true u.eth_p_ip
      then (do r ← parse_iphdr u md eth.cursor; some (some r))
      else if eth.ret ==ℤ bpf_htons e true u.eth_p_ipv6
      then (do r ← parse_ip6hdr u md eth.cursor; some (some r))
      else some none

module _ {W : Type 0} (h : SockHelpers W) (u : Uapi) (e : Endian) (md : XdpMd) (w : W) where
  -- From the TCP header on: `tcp` is the pointer that `parse_tcphdr` stored.
  unfoldable pub sock_tcp : ℕ → ℕ → Parsed → Option (ℤ × W)
  sock_tcp index qidconf t = if is_negative t.ret then some (pos (action_code aborted), w) else do
    tcp ← t.hdr
    dest ← load16 md e (ptr_add tcp u.tcphdr_dest)
    if bpf_ntohs e false dest == redirect_port
        then (if h.read_int w qidconf == 0
            then some (pos (action_code pass), w)
            else (let (out, w') = h.redirect_map w index 0 in some (to_int out, w')))
        else some (pos (action_code pass), w)

  -- From the EtherType on.
  unfoldable pub sock_ip : ℕ → ℕ → Parsed → Option (ℤ × W)
  sock_ip index qidconf eth = do
    ip ← parse_ip u e md eth
    elim ip [
      | none ↦ some (pos (action_code pass), w)
      | some r ↦
          if r.ret ==ℤ u.ipproto_tcp
          then (do t ← parse_tcphdr u md r.cursor; sock_tcp index qidconf t)
          else some (pos (action_code pass), w)
    ]

  unfoldable pub xdp_sock_prog : Option (ℤ × W)
  xdp_sock_prog =
      let index = u32 md.rx_queue_index in
      elim (h.map_lookup_elem w index) [
        | none ↦ some (pos (action_code pass), w)
        | some qidconf ↦ do
          eth ← parse_ethhdr u e md md.data_start
          if is_negative eth.ret
              then some (pos (action_code aborted), w)
              else sock_ip index qidconf eth
      ]
