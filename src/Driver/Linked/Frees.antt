-- ===== src/Driver/Linked/Frees.antt =====
-- The network link behind `main` of dumpframes/src/dumpframes.go.
use Prim.Native.String.{String}
use defrizer.Common.{ℕ, ◌≡◌, refl, sym, ◌∙◌, ◌⊎◌, inr, List, Bool, false, some, pos}
use defrizer.Link.{NetLinkCalls}
use defrizer.Maps.{MapCalls, LoadedProgram, close}
use defrizer.Driver.{NetInterface, find_ifindex, Exit, program_failed, attach_failed}
use defrizer.Driver.Ensures.{Ensures, ensured, Ensures-ends}
use defrizer.Driver.Frames.{
  Host, open_socket, attach_and_serve, load_and_serve, with_interface, main,
}
use defrizer.Driver.Linked.Free.{IsLink, close_handle-Same}
use defrizer.Driver.Linked.Body.{LoadFailedOrFree, attached_body-Free, loaded_body-Free}
use defrizer.Driver.Linked.{Failure, linked}

module _ {W S D E : Type 0} {links : NetLinkCalls W} {maps : MapCalls W} {i : ℕ}
    {attached : W → Bool} (link_right : IsLink links maps i attached) (looks : ℕ)
    (h : Host W LoadedProgram S D (Failure E)) where
  close-Same : (p : LoadedProgram) (w : W) → attached ((close maps p w).2) ≡ attached w
  unfolding close
  close-Same p w =
      close_handle-Same link_right _ p.program _ _
      ∙ (close_handle-Same link_right _ p.queues _ _ ∙ close_handle-Same link_right _ p.sockets _ w)

  load_and_serve-Free :
      (fuel q : ℕ) (w : W)
      → Ensures
          (LoadFailedOrFree link_right)
          (load_and_serve (linked maps links looks h) fuel i q w)
  unfolding load_and_serve attach_and_serve linked
  load_and_serve-Free fuel q w =
      loaded_body-Free link_right h.new_program _ _ w
        (λ p w1.
          attached_body-Free link_right looks p.program attach_failed
            (open_socket (linked maps links looks h) fuel p i q) w1)
        λ p w1 free. ensured (close-Same p w1 ∙ free)

  begins :
      (fuel q : ℕ) (name : String) (list : List NetInterface) (w w1 : W)
      → h.interfaces w ≡ some (inr list, w1)
      → find_ifindex name list ≡ pos i
      → main (linked maps links looks h) fuel name q w
        ≡ load_and_serve (linked maps links looks h) fuel i q w1
  unfolding main linked with_interface
  begins fuel q name list w w1 found index = rw (found, index) refl

  -- If netlink's calls for the link with index `i` behave as `IsLink` says, `i` is the index that
  -- `main` finds for the name it is given, and `main` ends, then either the program was not loaded, or
  -- the link has no XDP program at the end, whatever it had at the start, and whether the end is an
  -- error of `Attach`, `NewSocket` or `Register`, or a failed poll.
  pub main_frees_link :
      (fuel q : ℕ) (name : String) (list : List NetInterface) (w w1 w' : W)
      (exit : Exit (Failure E))
      → h.interfaces w ≡ some (inr list, w1)
      → find_ifindex name list ≡ pos i
      → main (linked maps links looks h) fuel name q w ≡ some (exit, w')
      → ((err : Failure E) × (exit ≡ program_failed err)) ⊎ (attached w' ≡ false)
  main_frees_link fuel q name list w w1 w' exit found index ends =
      Ensures-ends (sym (begins fuel q name list w w1 found index) ∙ ends)
        (load_and_serve-Free fuel q w1)
