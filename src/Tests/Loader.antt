-- ===== src/Tests/Loader.antt =====
-- The loader and the redirecting program over the kernel of `Kernel`: socket 9 is registered for
-- queue 3, on which the packet of `Data` arrives.
use defrizer.Common.{ℕ, ◌+◌, ◌≡◌, refl, ◌⊎◌, none, some, pos, u32, ◌==◌, if◌then◌else◌}
use defrizer.Endian.{little, big}
use defrizer.Uapi.{linux}
use defrizer.Program.Action.{redirect, action_code}
use defrizer.Program.Sock.{xdp_sock_prog}
use defrizer.Spec.Policy.{passes}
use defrizer.Maps.{
  MapCalls, close, failed_to_close_xsks_map, loaded, register, unregister, failed_to_delete,
}
use defrizer.Maps.Kernel.{einval}
use defrizer.Maps.Served.{idle, storing, finishing, Reach, start, later, registering}
use defrizer.Maps.Release.{close-eq-closes, closes, handles, event_handles, handle, outcome, empty}
use defrizer.Maps.Ring.{close_event_program}
use defrizer.Maps.Serve.{register_serves, unregister_keeps, never_aborted}
use defrizer.Tests.Data.{tagged_segment, tagged_segment-IsPlaced}
use defrizer.Tests.Frames.{sample, sample-IsFrame, sample_sent}
use defrizer.Tests.Kernel.{World, fresh, stored, calls, maps, view, maps-IsKernel}

abbrev bound : World
bound = stored (stored fresh 5 3 9) 4 3 1

register-bound : register calls (loaded 6 4 5) 3 9 fresh ≡ some (none, bound)
unfolding register
register-bound = refl

register_serves_example :
    (w : World) × (xdp_sock_prog maps linux little tagged_segment bound
      ≡ some (pos (action_code redirect), w))
    × (view.target w ≡ some 9)
register_serves_example =
    register_serves maps-IsKernel 6 3 9 fresh bound little tagged_segment sample register-bound refl
      tagged_segment-IsPlaced sample-IsFrame sample_sent refl

unregister_keeps_example :
    (w1 w : World) × (unregister calls (loaded 6 4 5) 3 bound
      ≡ some (some (failed_to_delete einval), w1))
    × (xdp_sock_prog maps linux little tagged_segment w1 ≡ some (pos (action_code redirect), w))
    × (view.target w ≡ some 9)
unregister_keeps_example =
    unregister_keeps maps-IsKernel 6 3 9 fresh bound little tagged_segment sample register-bound
      refl tagged_segment-IsPlaced sample-IsFrame sample_sent refl

Reach-bound : Reach calls maps 6 4 5 fresh idle bound
Reach-bound = later start (registering 3 9 none register-bound)

never_aborted_example :
    (xdp_sock_prog maps linux big tagged_segment bound ≡ some (passes, bound))
    ⊎ ((s : ℕ) × (w : World) × (xdp_sock_prog maps linux big tagged_segment bound
          ≡ some (pos (action_code redirect), w))
        × (view.socket bound (u32 tagged_segment.rx_queue_index) ≡ some s)
        × (view.target w ≡ some s))
never_aborted_example =
    never_aborted maps-IsKernel 6 big tagged_segment idle fresh bound sample (λ i. refl) Reach-bound
      tagged_segment-IsPlaced sample-IsFrame sample_sent

-- The same state by way of an interrupted call.
bound-interrupted : Reach calls maps 6 4 5 fresh idle bound
bound-interrupted = later (later start (storing 3 9 refl)) (finishing 3 none refl)

-- Closing a descriptor counts; it fails for `xsks_map`.
abbrev failing : MapCalls ℕ
failing = record {
  put = λ w m i x. (none, w);
  delete = λ w m i. (none, w);
  close = λ w fd. (if fd == 5 then some 9 else none, w + 1);
}

close-eq-closes_example :
    (close failing (loaded 6 4 5) 0 ≡ (some (failed_to_close_xsks_map 9), empty, 3))
    × (close_event_program failing (record { program = some 6; events = some 5 }) 0
        ≡ (some (failed_to_close_xsks_map 9), record { program = none; events = none }, 2))
unfolding closes handles event_handles handle outcome
close-eq-closes_example =
    close-eq-closes failing (loaded 6 4 5) (record { program = some 6; events = some 5 }) 0
