-- ===== src/Driver/Linked/Reader/Ends.antt =====
-- `main` of perf_event/src/dumpframes.go over netlink: that it ends, and the link then.
use Prim.Native.String.{String}
use defrizer.Common.{ℕ, suc, ◌≤◌, ◌≡◌, arith, ◌⊎◌, inr, List, [], Bool, false, none, some, pos}
use defrizer.Link.{NetLinkCalls}
use defrizer.Maps.{MapCalls, close_handle, failed_to_close_xsks_map, failed_to_close_program}
use defrizer.Maps.Ring.{EventProgram, close_event_program}
use defrizer.Driver.{NetInterface, find_ifindex, Exit, program_failed}
use defrizer.Driver.Returns.{returns}
use defrizer.Driver.Events.{Host, main}
use defrizer.Driver.Events.Terminate.{Draining, event_main_ends}
use defrizer.Driver.Linked.{Failure, of_link}
use defrizer.Driver.Linked.Free.{IsLink}
use defrizer.Driver.Linked.Prompt.{
  IsPrompt, attach-Kept, remove-Kept, close_handle-le, outcome-Kept,
}
use defrizer.Driver.Linked.Reader.{linked_reader, event_main_frees_link}

-- A program with no nil handle.
abbrev pub IsLoadedEvent : EventProgram → Type 0
IsLoadedEvent p =
    (program : ℕ) × (events : ℕ) × (p ≡ record { program = some program; events = some events })

module _ {W R E : Type 0} {links : NetLinkCalls W} {maps : MapCalls W} {looks : ℕ} {left : W → ℕ}
    (prompt : IsPrompt maps links looks left) (h : Host W EventProgram R (Failure E))
    (draining : Draining h left IsLoadedEvent) where
  close_event_program-le :
      (p : EventProgram) (w : W) → left ((close_event_program maps p w).2) ≤ left w
  unfolding close_event_program
  close_event_program-le p w =
      let one = close_handle maps failed_to_close_xsks_map p.events [] w in
      let first = close_handle-le prompt failed_to_close_xsks_map p.events [] w in
      let second = close_handle-le prompt failed_to_close_program p.program one.0 one.1 in
      omega (arith, first, second)

  linked_reader-Draining : Draining (linked_reader maps links looks h) left IsLoadedEvent
  unfolding linked_reader
  linked_reader-Draining = record {
    memlock_back = draining.memlock_back;
    interfaces_back = draining.interfaces_back;
    new_program_back = draining.new_program_back;
    close_back = λ p w. returns (close_event_program-le p w);
    attach_back =
        λ p (program, events, e) i w. rw e (outcome-Kept of_link (attach-Kept prompt i program w));
    detach_back = λ p i w. outcome-Kept of_link (remove-Kept prompt i w);
    new_reader_back = draining.new_reader_back;
    close_reader_back = draining.close_reader_back;
    read_back = draining.read_back;
    println_back = draining.println_back;
  }

  -- If the kernel detaches a program in time, as `IsPrompt` says, netlink's calls for the link with
  -- index `i` behave as `IsLink` says, memory is unlocked, the other calls of `main` of
  -- perf_event/src/dumpframes.go come back, a program is loaded with no nil handle, at most `left w`
  -- reads do not fail, and `i` is the index that `main` finds for the name it is given: then `main`
  -- ends after at most one read more than these, and either the program was not loaded, or the link
  -- has no XDP program at the end, whatever it had at the start, and whether the end is an error of
  -- `Attach`, or a panic because the reader could not be opened or a read failed.
  pub event_main_ends_free :
      {i : ℕ} {attached : W → Bool} (name : String) (list : List NetInterface) (w w1 w2 : W)
      → IsLink links maps i attached
      → h.remove_memlock w ≡ some (none, w1)
      → h.interfaces w1 ≡ some (inr list, w2)
      → find_ifindex name list ≡ pos i
      → (exit : Exit (Failure E)) × (w' : W) × (main
            (linked_reader maps links looks h)
            (suc (left w))
            name
            w
          ≡ some (exit, w'))
        × (((err : Failure E) × (exit ≡ program_failed err)) ⊎ (attached w' ≡ false))
  event_main_ends_free name list w w1 w2 link_right unlocked found index =
      let (exit, w', ends) =
        event_main_ends (linked_reader maps links looks h) left IsLoadedEvent linked_reader-Draining
          name w in
      (
        exit,
        w',
        ends,
        event_main_frees_link link_right looks h (suc (left w)) name list w w1 w2 w' exit unlocked
            found index ends,
      )
