-- ===== src/Driver/Linked/Reader.antt =====
-- `main` of perf_event/src/dumpframes.go on the methods of `Program` of perf_event/program.go, over the
-- network link.
pub mod Ends
use Prim.Native.String.{String}
use defrizer.Common.{ℕ, ◌≡◌, refl, sym, ◌∙◌, ◌⊎◌, inr, List, Bool, false, none, some, pos}
use defrizer.Link.{NetLinkCalls}
use defrizer.Maps.{MapCalls}
use defrizer.Maps.Ring.{EventProgram, close_event_program}
use defrizer.Driver.{NetInterface, find_ifindex, Exit, program_failed, attach_failed}
use defrizer.Driver.Ensures.{Ensures, ensured, Ensures-ends}
use defrizer.Driver.Events.{Host, open_reader, attach_and_read, with_interface, main}
use defrizer.Driver.Linked.{Failure, of_program, wrapped, attach_handle, detach_link}
use defrizer.Driver.Linked.Free.{IsLink, close_handle-Same}
use defrizer.Driver.Linked.Body.{LoadFailedOrFree, attached_body-Free, loaded_body-Free}

-- The host `h` with the methods of `Program`.
unfoldable pub linked_reader :
    {W R E : Type 0}
    → MapCalls W
    → NetLinkCalls W
    → ℕ
    → Host W EventProgram R (Failure E)
    → Host W EventProgram R (Failure E)
linked_reader maps links looks h = record h {
  attach = λ p. attach_handle links looks p.program;
  detach = λ p. detach_link links looks;
  close = λ p w.
      let (failure, p', w') = close_event_program maps p w in some (wrapped of_program failure, w');
}

module _ {W R E : Type 0} {links : NetLinkCalls W} {maps : MapCalls W} {i : ℕ} {attached : W → Bool}
    (link_right : IsLink links maps i attached) (looks : ℕ)
    (h : Host W EventProgram R (Failure E)) where
  close_event_program-Same :
      (p : EventProgram) (w : W) → attached ((close_event_program maps p w).2) ≡ attached w
  unfolding close_event_program
  close_event_program-Same p w =
      close_handle-Same link_right _ p.program _ _ ∙ close_handle-Same link_right _ p.events _ w

  with_interface-Free :
      (fuel : ℕ) (w : W)
      → Ensures
          (LoadFailedOrFree link_right)
          (with_interface (linked_reader maps links looks h) fuel (pos i) w)
  unfolding with_interface attach_and_read linked_reader
  with_interface-Free fuel w =
      loaded_body-Free link_right h.new_program _ _ w
        (λ p w1.
          attached_body-Free link_right looks p.program attach_failed
            (open_reader (linked_reader maps links looks h) fuel p) w1)
        λ p w1 free. ensured (close_event_program-Same p w1 ∙ free)

  begins :
      (fuel : ℕ) (name : String) (list : List NetInterface) (w w1 w2 : W)
      → h.remove_memlock w ≡ some (none, w1)
      → h.interfaces w1 ≡ some (inr list, w2)
      → find_ifindex name list ≡ pos i
      → main (linked_reader maps links looks h) fuel name w
        ≡ with_interface (linked_reader maps links looks h) fuel (pos i) w2
  unfolding main linked_reader
  begins fuel name list w w1 w2 unlocked found index = rw (unlocked, found, index) refl

  -- If netlink's calls for the link with index `i` behave as `IsLink` says, memory is unlocked, `i` is
  -- the index that `main` of perf_event/src/dumpframes.go finds for the name it is given, and `main`
  -- ends, then either the program was not loaded, or the link has no XDP program at the end, whatever
  -- it had at the start, and whether the end is an error of `Attach`, or a panic because the reader
  -- could not be opened or a read failed.
  pub event_main_frees_link :
      (fuel : ℕ) (name : String) (list : List NetInterface) (w w1 w2 w' : W)
      (exit : Exit (Failure E))
      → h.remove_memlock w ≡ some (none, w1)
      → h.interfaces w1 ≡ some (inr list, w2)
      → find_ifindex name list ≡ pos i
      → main (linked_reader maps links looks h) fuel name w ≡ some (exit, w')
      → ((err : Failure E) × (exit ≡ program_failed err)) ⊎ (attached w' ≡ false)
  event_main_frees_link fuel name list w w1 w2 w' exit unlocked found index ends =
      Ensures-ends (sym (begins fuel name list w w1 w2 unlocked found index) ∙ ends)
        (with_interface-Free fuel w2)
