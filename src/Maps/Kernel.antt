-- ===== src/Maps/Kernel.antt =====
-- What the loader and the redirecting program rely on of the kernel's maps: the documented behaviour
-- of an array map, of an XSKMAP, and of `bpf_redirect_map`.
use defrizer.Common.{ℕ, ◌≡◌, ◌≤◌, ◌<◌, Option, none, some, ◌==◌, if◌then◌else◌}
use defrizer.Program.Sock.{SockHelpers}
use defrizer.Program.Action.{redirect, action_code}
use defrizer.Maps.{MapCalls, qidconf_map}

-- What can be seen of the kernel's state: the entries of `qidconf_map`, the sockets in `xsks_map`,
-- and the socket that the last redirect has chosen for the packet at hand.
pub record MapView (W : Type 0) : Type 0 where
  pub entry : W → ℕ → ℕ
  pub socket : W → ℕ → Option ℕ
  pub target : W → Option ℕ

-- `EINVAL`
abbrev pub einval : ℕ
einval = 22

-- The documented behaviour, with `queues` and `sockets` the descriptors of the two maps.
pub record IsKernel {W : Type 0} (k : MapCalls W) (h : SockHelpers W) (v : MapView W)
    (queues sockets : ℕ) : Type 0 where
  -- All elements of an array map exist; there is no element beyond `max_entries`.
  pub lookup_in :
      (w : W) (i : ℕ)
      → i < qidconf_map.max_entries
      → (p : ℕ) × (h.map_lookup_elem w i ≡ some p) × (h.read_int w p ≡ v.entry w i)
  pub lookup_out : (w : W) (i : ℕ) → qidconf_map.max_entries ≤ i → h.map_lookup_elem w i ≡ none
  -- An update that fails changes nothing, and an update out of range fails.
  pub put_fails : (w w' : W) (m i x err : ℕ) → k.put w m i x ≡ (some err, w') → w' ≡ w
  pub put_in : (w w' : W) (i x : ℕ) → k.put w queues i x ≡ (none, w') → i < qidconf_map.max_entries
  pub put_queues :
      (w w' : W) (i x : ℕ)
      → k.put w queues i x ≡ (none, w')
      → (j : ℕ)
      → (v.entry w' j ≡ (if j == i then x else v.entry w j)) × (v.socket w' j ≡ v.socket w j)
  pub put_sockets :
      (w w' : W) (i x : ℕ)
      → k.put w sockets i x ≡ (none, w')
      → (j : ℕ)
      → (v.entry w' j ≡ v.entry w j) × (v.socket w' j ≡ (if j == i then some x else v.socket w j))
  -- The elements of an array map cannot be deleted.
  pub delete_queues : (w : W) (i : ℕ) → k.delete w queues i ≡ (some einval, w)
  -- A redirect leaves the maps as they are. It gives XDP_REDIRECT for a socket in the map, and the
  -- low bits of its flags, here XDP_ABORTED, where there is none.
  pub redirect_maps :
      (w : W) (i j : ℕ)
      → (v.entry ((h.redirect_map w i 0).1) j ≡ v.entry w j)
        × (v.socket ((h.redirect_map w i 0).1) j ≡ v.socket w j)
  pub redirect_found :
      (w : W) (i s : ℕ)
      → v.socket w i ≡ some s
      → ((h.redirect_map w i 0).0 ≡ action_code redirect)
        × (v.target ((h.redirect_map w i 0).1) ≡ some s)
  pub redirect_missing : (w : W) (i : ℕ) → v.socket w i ≡ none → (h.redirect_map w i 0).0 ≡ 0
