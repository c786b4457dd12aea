-- ===== src/Tests/Linked.antt =====
-- `main`'s loop over the kernel of `Kernel`: socket 9 is registered for queue 3, and two polls pass.
use defrizer.Common.{ℕ, ◌≡◌, ◌⊎◌, refl, inl, inr, [], ◌∷◌, Option, none, some, pos, u32}
use defrizer.Endian.{little}
use defrizer.Uapi.{linux}
use defrizer.Program.Action.{redirect, action_code}
use defrizer.Program.Sock.{xdp_sock_prog}
use defrizer.Maps.{LoadedProgram, loaded, register, unregister, close, close_handle}
use defrizer.Link.{NetLinkCalls, is_xdp_attached, remove_program, attach_program, attach}
use defrizer.Driver.{pure, deferring, find_ifindex, poll_failed}
use defrizer.Driver.Frames.{
  Host, main, with_interface, load_and_serve, attach_and_serve, open_socket, serve, rounds, round,
  fill_free, show_received, show_frames, show_layer,
}
use defrizer.Driver.Frames.Serving.{Serves, next, idle}
use defrizer.Driver.Linked.{Failure, elsewhere, linked}
use defrizer.Driver.Linked.Leaves.{LeavesMaps, SameMaps, After, there}
use defrizer.Driver.Linked.Polled.{main_diverts}
use defrizer.Tests.Drivers.{interfaces_here}
use defrizer.Driver.Linked.Diverts.{loop_diverts}
use defrizer.Tests.Data.{tagged_segment, tagged_segment-IsPlaced}
use defrizer.Tests.Frames.{sample, sample-IsFrame, sample_sent}
use defrizer.Tests.Kernel.{World, fresh, stored, calls, maps, view, maps-IsKernel}

abbrev no_links : NetLinkCalls World
no_links = record {
  link_by_index = λ w i. (inl 19, w);
  set_xdp_fd = λ w link fd. (none, w);
  set_xdp_fd_with_flags = λ w link fd flags. (none, w);
  sleep = λ w. w;
}

abbrev socket_host : Host World LoadedProgram ℕ ℕ (Failure ℕ)
socket_host = record {
  interfaces = pure (inr []);
  new_program = pure (inr (loaded 6 4 5));
  close = λ p. pure none;
  attach = λ p i. pure none;
  detach = λ p i. pure none;
  new_socket = λ i q. pure (inr 9);
  fd = λ s. s;
  register = λ p q fd. pure none;
  unregister = λ p q. pure none;
  num_free_fill_slots = λ s. pure 2;
  get_descs = λ s n b. pure (0 ∷ []);
  fill = λ s ds. pure 1;
  poll = λ s t. pure (inr (1, 0));
  receive = λ s n. pure (0 ∷ []);
  get_frame = λ s d. pure (d ∷ []);
  tcp_layer = λ frame. none;
  printf = λ line. pure tt;
}

socket_host-LeavesMaps : LeavesMaps socket_host view
unfolding SameMaps
socket_host-LeavesMaps = record {
  slots_leaves = λ s w. there (λ j. (refl, refl));
  descs_leaves = λ s n b w. there (λ j. (refl, refl));
  fill_leaves = λ s ds w. there (λ j. (refl, refl));
  poll_leaves = λ s t w. there (λ j. (refl, refl));
  receive_leaves = λ s n w. there (λ j. (refl, refl));
  frame_leaves = λ s d w. there (λ j. (refl, refl));
  printf_leaves = λ x w. there (λ j. (refl, refl));
}

abbrev bound : World
bound = stored (stored fresh 5 3 9) 4 3 1

linked-bound :
    (linked calls no_links 1 socket_host).register (loaded 6 4 5) 3 9 fresh ≡ some (none, bound)
unfolding linked register
linked-bound = refl

two_rounds : Serves (linked calls no_links 1 socket_host) 9 2 bound bound
unfolding linked round fill_free show_received show_frames show_layer
two_rounds = next {w = bound} {w1 = bound} refl (next {w = bound} {w1 = bound} refl idle)

loop_diverts_example :
    (w : World) × (xdp_sock_prog maps linux little tagged_segment bound
      ≡ some (pos (action_code redirect), w))
    × (view.target w ≡ some 9)
loop_diverts_example =
    loop_diverts calls no_links 1 socket_host view maps 6 4 5 9 3 2 fresh bound bound little
      tagged_segment sample maps-IsKernel socket_host-LeavesMaps linked-bound two_rounds refl
      tagged_segment-IsPlaced sample-IsFrame sample_sent refl

-- `main` on a link with no XDP program, with a poll that passes and one that fails.
abbrev bare_links : NetLinkCalls World
bare_links = record no_links {
  link_by_index = λ w i. (inr (record { index = i; attrs = none }), w);
}

abbrev poll_once : Option ℕ → World → Option ((Failure ℕ ⊎ (ℕ × ℕ)) × World)
poll_once none w = some (inr (1, 0), record w { target = some 0 })
poll_once (some _) w = some (inl (elsewhere 4), w)

abbrev polling_host : Host World LoadedProgram ℕ ℕ (Failure ℕ)
polling_host = record socket_host {
  interfaces = pure (inr interfaces_here);
  poll = λ s t w. poll_once w.target w;
}

polling_host-LeavesMaps : LeavesMaps polling_host view
unfolding SameMaps
polling_host-LeavesMaps = record {
  slots_leaves = λ s w. there (λ j. (refl, refl));
  descs_leaves = λ s n b w. there (λ j. (refl, refl));
  fill_leaves = λ s ds w. there (λ j. (refl, refl));
  poll_leaves = λ s t w. polls w.target w;
  receive_leaves = λ s n w. there (λ j. (refl, refl));
  frame_leaves = λ s d w. there (λ j. (refl, refl));
  printf_leaves = λ x w. there (λ j. (refl, refl));
}
  where
    polls : (o : Option ℕ) (w : World) → After (SameMaps view w) (poll_once o w)
    polls none w = there (λ j. (refl, refl))
    polls (some _) w = there (λ j. (refl, refl))

abbrev polled : World
polled = record bound { target = some 0 }

main_polls :
    main (linked calls bare_links 1 polling_host) 2 "eth0" 3 fresh
    ≡ some (poll_failed (elsewhere 4), polled)
unfolding main linked find_ifindex with_interface load_and_serve deferring attach_and_serve
    open_socket serve rounds round fill_free show_received show_frames show_layer register
    unregister close close_handle remove_program attach_program attach is_xdp_attached
main_polls = refl

loaded_here :
    (w0 w1 : World) (p : LoadedProgram)
    → polling_host.new_program w0 ≡ some (inr p, w1)
    → p ≡ loaded 6 4 5
loaded_here w0 w1 p e = cc e

main_diverts_example :
    (s : ℕ) × (n : ℕ) × (w0 : World) × (w1 : World) × (w2 : World) × (w3 : World) × (w4 : World)
    × ((linked calls bare_links 1 polling_host).register (loaded 6 4 5) 3 s w0 ≡ some (none, w1))
    × Serves (linked calls bare_links 1 polling_host) s n w1 w2
    × (round (linked calls bare_links 1 polling_host) s w2 ≡ some (some (elsewhere 4), w3))
    × (xdp_sock_prog maps linux little tagged_segment w2 ≡ some (pos (action_code redirect), w4))
    × (view.target w4 ≡ some (u32 s))
main_diverts_example =
    main_diverts calls bare_links 1 polling_host view maps 6 4 5 2 "eth0" 3 fresh polled
      (elsewhere 4) little tagged_segment sample maps-IsKernel polling_host-LeavesMaps loaded_here
      main_polls refl tagged_segment-IsPlaced sample-IsFrame sample_sent refl
