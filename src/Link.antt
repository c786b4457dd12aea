-- ===== src/Link.antt =====
-- Attaching and detaching an XDP program: `removeProgram`, `isXdpAttached`, `attachProgram`, `Attach`
-- and `Detach` of dumpframes/program.go, which perf_event/program.go has too. The outer `none` is a
-- loop that has not ended within its fuel.
pub mod Removal
use defrizer.Common.{ℕ, zero, suc, ◌⊎◌, inl, inr, Bool, true, false, Option, none, some, ◌>>=◌}

-- What the code reads of a link: `Attrs()`, its `Xdp`, and that one's `Attached`; `none` for nil.
pub record NetLink : Type 0 where
  pub index : ℕ
  pub attrs : Option (Option Bool)

-- The calls of the netlink library, over the state `W` of the kernel, and the second's sleep.
-- A link or an error number; `set_xdp_fd w link none` is the descriptor -1, which detaches.
pub record NetLinkCalls (W : Type 0) : Type 0 where
  pub link_by_index : W → ℕ → (ℕ ⊎ NetLink) × W
  pub set_xdp_fd : W → NetLink → Option ℕ → Option ℕ × W
  pub set_xdp_fd_with_flags : W → NetLink → ℕ → ℕ → Option ℕ × W
  pub sleep : W → W

pub data LinkError : Type 0 where
  link_error : ℕ → LinkError
  set_xdp_fd_failed : ℕ → LinkError

abbrev pub default_xdp_flags : ℕ
default_xdp_flags = 0

unfoldable pub is_xdp_attached : NetLink → Bool
is_xdp_attached link = elim link.attrs [
  | none ↦ false
  | some xdp ↦ elim xdp [ none ↦ false | some attached ↦ attached ]
]

module _ {W : Type 0} (k : NetLinkCalls W) (ifindex : ℕ) where
  -- The `for` of `removeProgram`.
  unfoldable pub wait_removed : ℕ → W → Option (Option LinkError × W)
  wait_removed zero w = none
  wait_removed (suc fuel) w =
      let (found, w') = k.link_by_index w ifindex in
      elim found [
        | inl err ↦ some (some (link_error err), w')
        | inr link ↦ elim (is_xdp_attached link) [
          | true ↦ wait_removed fuel (k.sleep w')
          | false ↦ some (none, w')
        ]
      ]

  -- `removeProgram`, and `Detach`
  unfoldable pub remove_program : ℕ → W → Option (Option LinkError × W)
  remove_program fuel w =
      let (found, w') = k.link_by_index w ifindex in
      elim found [
        | inl err ↦ some (some (link_error err), w')
        | inr link ↦ elim (is_xdp_attached link) [
          | false ↦ some (none, w')
          | true ↦
              let (failure, w'') = k.set_xdp_fd w' link none in
              elim failure [
                | some err ↦ some (some (set_xdp_fd_failed err), w'')
                | none ↦ wait_removed fuel w''
              ]
        ]
      ]

  -- `attachProgram`
  unfoldable pub attach_program : ℕ → W → Option LinkError × W
  attach_program fd w =
      let (found, w') = k.link_by_index w ifindex in
      elim found [
        | inl err ↦ (some (link_error err), w')
        | inr link ↦
            let (failure, w'') = k.set_xdp_fd_with_flags w' link fd default_xdp_flags in
            elim failure [ some err ↦ (some (link_error err), w'') | none ↦ (none, w'') ]
      ]

  -- `Attach`
  unfoldable pub attach : ℕ → ℕ → W → Option (Option LinkError × W)
  attach fuel fd w = do
    r ← remove_program fuel w
    let (failure, w') = r
    elim failure [ some err ↦ some (some err, w') | none ↦ some (attach_program fd w') ]

  -- `attachProgram` of a nil program: its descriptor is asked for behind the look, which panics.
  unfoldable pub attach_nil_program : W → Option (Option LinkError × W)
  attach_nil_program w =
      let (found, w') = k.link_by_index w ifindex in
      elim found [ inl err ↦ some (some (link_error err), w') | inr link ↦ none ]

  -- `Attach` where the program is nil
  unfoldable pub attach_nil : ℕ → W → Option (Option LinkError × W)
  attach_nil fuel w = do
    r ← remove_program fuel w
    let (failure, w') = r
    elim failure [ some err ↦ some (some err, w') | none ↦ attach_nil_program w' ]
