-- ===== src/Driver/Linked/Free.antt =====
-- What netlink documents of a link, and what the link is behind `Attach`, `Detach` and `Close` of
-- program.go.
use defrizer.Common.{
  call-cases, ℕ, zero, suc, ◌≡◌, refl, ◌∙◌, ◌↔◌, inl, inr, List, Bool, true, false, Option, none,
  some, ◌>>=◌, Bool-cases,
}
use defrizer.Link.{
  NetLink, NetLinkCalls, LinkError, default_xdp_flags, is_xdp_attached, wait_removed,
  remove_program, attach_program, attach, attach_nil_program, attach_nil, link_error,
}
use defrizer.Link.Removal.{
  HasProgram, attached-HasProgram, free-HasProgram, wait_goes_on, wait_stops, remove_idle,
  remove_waits,
}
use defrizer.Maps.{MapCalls, ProgramError, close_handle}
use defrizer.Driver.Ensures.{Ensures, stuck, ensured}

-- The documented behaviour of netlink for the link with index `i`, where no call for it fails but that
-- which attaches, and `attached` is what a look at that index shows: a look changes nothing, and so does a failed attachment and the
-- close of a map or a program.
pub record IsLink {W : Type 0} (links : NetLinkCalls W) (maps : MapCalls W) (i : ℕ)
    (attached : W → Bool) : Type 0 where
  pub look :
      (w : W)
      → (link : NetLink) × (w' : W) × (links.link_by_index w i ≡ (inr link, w'))
        × (HasProgram link ↔ (attached w ≡ true))
        × (attached w' ≡ attached w)
  pub unset :
      (v w : W) (link : NetLink)
      → links.link_by_index v i ≡ (inr link, w)
      → HasProgram link
      → (w' : W) × (links.set_xdp_fd w link none ≡ (none, w'))
  pub set_refused :
      (v w w' : W) (link : NetLink) (fd flags err : ℕ)
      → links.link_by_index v i ≡ (inr link, w)
      → links.set_xdp_fd_with_flags w link fd flags ≡ (some err, w')
      → attached w' ≡ attached w
  pub close_leaves : (w : W) (fd : ℕ) → attached ((maps.close w fd).1) ≡ attached w

module _ {W : Type 0} {links : NetLinkCalls W} {maps : MapCalls W} {i : ℕ} {attached : W → Bool}
    (link_right : IsLink links maps i attached) where
  free_then :
      {w : W} (link : NetLink)
      → (attached w ≡ true → HasProgram link)
      → is_xdp_attached link ≡ false
      → attached w ≡ false
  free_then {w = w} link seen off = elim (Bool-cases (attached w)) [
    | inl on ↦ absurd (free-HasProgram link off (seen on))
    | inr free ↦ free
  ]

  -- A removal that ends has no error, and the link has no XDP program then.
  abbrev Freed : {F : Type 0} → Option F → W → Type 0
  Freed r w' = (r ≡ none) × (attached w' ≡ false)

  wait-Freed : (fuel : ℕ) (w : W) → Ensures Freed (wait_removed links i fuel w)
  unfolding wait_removed
  wait-Freed zero w = stuck
  wait-Freed (suc fuel) w =
      let (link, w1, p, seen, same) = link_right.look w in
      elim (Bool-cases (is_xdp_attached link)) [
        | inl on ↦ rw (wait_goes_on links i fuel w w1 link p on) (wait-Freed fuel (links.sleep w1))
        | inr off ↦
            let free : attached w1 ≡ false = same ∙ free_then link (seen.1) off in
            rw (wait_stops links i fuel w w1 link p off) (ensured (refl, free))
      ]

  pub remove-Freed : (fuel : ℕ) (w : W) → Ensures Freed (remove_program links i fuel w)
  remove-Freed fuel w =
      let (link, w1, p, seen, same) = link_right.look w in
      elim (Bool-cases (is_xdp_attached link)) [
        | inl on ↦
            let (w2, q) = link_right.unset w w1 link p (attached-HasProgram link on) in
            rw (remove_waits links i fuel w w1 w2 link p on q) (wait-Freed fuel w2)
        | inr off ↦
            let free : attached w1 ≡ false = same ∙ free_then link (seen.1) off in
            rw (remove_idle links i fuel w w1 link p off) (ensured (refl, free))
      ]

  -- An attachment that fails leaves the link free.
  abbrev pub FreeIfFailed : {F : Type 0} → Option F → W → Type 0
  FreeIfFailed none w' = Unit {0}
  FreeIfFailed (some err) w' = attached w' ≡ false

  attach_refused :
      (fd err : ℕ) (w w1 w2 : W) (link : NetLink)
      → links.link_by_index w i ≡ (inr link, w1)
      → links.set_xdp_fd_with_flags w1 link fd default_xdp_flags ≡ (some err, w2)
      → attach_program links i fd w ≡ (some (link_error err), w2)
  unfolding attach_program
  attach_refused fd err w w1 w2 link p q = rw (p, attach_program, p, q, p, q)

  attach_taken :
      (fd : ℕ) (w w1 w2 : W) (link : NetLink)
      → links.link_by_index w i ≡ (inr link, w1)
      → links.set_xdp_fd_with_flags w1 link fd default_xdp_flags ≡ (none, w2)
      → attach_program links i fd w ≡ (none, w2)
  unfolding attach_program
  attach_taken fd w w1 w2 link p q = rw (p, attach_program, p, q, p, q)

  attach_program-FreeIfFailed :
      (fd : ℕ) (w : W)
      → attached w ≡ false
      → Ensures FreeIfFailed (some (attach_program links i fd w))
  attach_program-FreeIfFailed fd w free =
      let (link, w1, p, seen, same) = link_right.look w in
      elim (call-cases (links.set_xdp_fd_with_flags w1 link fd default_xdp_flags)) [
        | inl (err, w2, q) ↦
            let still : attached w2 ≡ false =
              link_right.set_refused w w1 w2 link fd default_xdp_flags err p q ∙ (same ∙ free) in
            rw (attach_refused fd err w w1 w2 link p q) (ensured still)
        | inr (w2, q) ↦ rw (attach_taken fd w w1 w2 link p q) (ensured tt)
      ]

  pub attach-FreeIfFailed : (fuel fd : ℕ) (w : W) → Ensures FreeIfFailed (attach links i fuel fd w)
  unfolding attach
  attach-FreeIfFailed fuel fd w = after (remove-Freed fuel w)
    where
      after :
          {o : Option (Option LinkError × W)}
          → Ensures Freed o
          → Ensures FreeIfFailed (do
            r ← o
            let (failure, w') = r
            elim failure [
              | some err ↦ some (some err, w')
              | none ↦ some (attach_program links i fd w')
            ])
      after stuck = stuck
      after (ensured (none_failed, free)) = rw none_failed (attach_program-FreeIfFailed fd _ free)

  attach_nil_program-FreeIfFailed : (w : W) → Ensures FreeIfFailed (attach_nil_program links i w)
  unfolding attach_nil_program
  attach_nil_program-FreeIfFailed w =
      let (link, w1, p, seen, same) = link_right.look w in rw (p, attach_nil_program) stuck

  pub attach_nil-FreeIfFailed :
      (fuel : ℕ) (w : W) → Ensures FreeIfFailed (attach_nil links i fuel w)
  unfolding attach_nil
  attach_nil-FreeIfFailed fuel w = after (remove-Freed fuel w)
    where
      after :
          {o : Option (Option LinkError × W)}
          → Ensures Freed o
          → Ensures FreeIfFailed (do
            r ← o
            let (failure, w') = r
            elim failure [ some err ↦ some (some err, w') | none ↦ attach_nil_program links i w' ])
      after stuck = stuck
      after (ensured (none_failed, free)) = rw none_failed (attach_nil_program-FreeIfFailed _)

  pub close_handle-Same :
      (wrap : ℕ → ProgramError) (handle : Option ℕ) (errs : List ProgramError) (w : W)
      → attached ((close_handle maps wrap handle errs w).1) ≡ attached w
  unfolding close_handle
  close_handle-Same wrap none errs w = refl
  close_handle-Same wrap (some fd) errs w =
      let left = link_right.close_leaves w fd in
      elim (call-cases (maps.close w fd)) [
        | inl (err, w', p) ↦ rw (close_handle, p) left
        | inr (w', p) ↦ rw (close_handle, p) left
      ]
