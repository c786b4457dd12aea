-- ===== src/Driver/Linked/Ends.antt =====
-- `main` of dumpframes/src/dumpframes.go over netlink: that it ends, and the link then.
use Prim.Native.String.{String}
use defrizer.Common.{ℕ, suc, ◌≡◌, ◌⊎◌, inr, List, Bool, false, some, pos}
use defrizer.Link.{NetLinkCalls}
use defrizer.Maps.{MapCalls, LoadedProgram}
use defrizer.Loader.Ready.{IsLoaded}
use defrizer.Driver.{NetInterface, find_ifindex, Exit, program_failed}
use defrizer.Driver.Returns.{returns}
use defrizer.Driver.Frames.{Host, main}
use defrizer.Driver.Frames.Settling.{Settling}
use defrizer.Driver.Frames.Terminate.{main_returns}
use defrizer.Driver.Linked.{Failure, of_link, of_program, linked}
use defrizer.Driver.Linked.Free.{IsLink}
use defrizer.Driver.Linked.Frees.{main_frees_link}
use defrizer.Driver.Linked.Prompt.{
  IsPrompt, attach-Kept, remove-Kept, register-Kept, unregister-Kept, close-le, outcome-Kept,
}

module _ {W S D E : Type 0} {links : NetLinkCalls W} {maps : MapCalls W} {looks : ℕ} {left : W → ℕ}
    (prompt : IsPrompt maps links looks left) (h : Host W LoadedProgram S D (Failure E))
    (settling : Settling h left IsLoaded) where
  linked-Settling : Settling (linked maps links looks h) left IsLoaded
  unfolding linked
  linked-Settling = record {
    interfaces_back = settling.interfaces_back;
    new_program_back = settling.new_program_back;
    close_back = λ p w. returns (close-le prompt p w);
    attach_back = λ p (program, queues, sockets, e) i w.
        rw e (outcome-Kept of_link (attach-Kept prompt i program w));
    detach_back = λ p i w. outcome-Kept of_link (remove-Kept prompt i w);
    new_socket_back = settling.new_socket_back;
    register_back = λ p (program, queues, sockets, e) q fd w.
        rw e (outcome-Kept of_program (register-Kept prompt program queues sockets q fd w));
    unregister_back = λ p (program, queues, sockets, e) q w.
        rw e (outcome-Kept of_program (unregister-Kept prompt program queues sockets q w));
    slots_back = settling.slots_back;
    descs_back = settling.descs_back;
    fill_back = settling.fill_back;
    poll_back = settling.poll_back;
    receive_back = settling.receive_back;
    frame_back = settling.frame_back;
    printf_back = settling.printf_back;
  }

  -- If the kernel detaches a program in time, as `IsPrompt` says, netlink's calls for the link with
  -- index `i` behave as `IsLink` says, the other calls of `main` come back, a program is loaded with no
  -- nil handle, at most `left w` polls do not fail, and `i` is the index that `main` finds for the name
  -- it is given: then `main` ends after at most one round more than these polls, and either the program
  -- was not loaded, or the link has no XDP program at the end, whatever it had at the start, and
  -- whether the end is an error of `Attach`, `NewSocket` or `Register`, or a failed poll.
  pub main_ends_free :
      {i : ℕ} {attached : W → Bool} (q : ℕ) (name : String) (list : List NetInterface) (w w1 : W)
      → IsLink links maps i attached
      → h.interfaces w ≡ some (inr list, w1)
      → find_ifindex name list ≡ pos i
      → (exit : Exit (Failure E)) × (w' : W) × (main
            (linked maps links looks h)
            (suc (left w))
            name
            q
            w
          ≡ some (exit, w'))
        × (((err : Failure E) × (exit ≡ program_failed err)) ⊎ (attached w' ≡ false))
  main_ends_free q name list w w1 link_right found index =
      let (exit, w', ends) =
        main_returns (linked maps links looks h) left IsLoaded linked-Settling name q w in
      (
        exit,
        w',
        ends,
        main_frees_link link_right looks h (suc (left w)) q name list w w1 w' exit found index ends,
      )
