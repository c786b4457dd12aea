-- ===== src/Tests/Variants.antt =====
-- The two programs side by side on the packet of `Data`, and how far its parsers move.
use defrizer.Common.{ℕ, ◌+◌, ◌≡◌, ◌≢◌, ◌↔◌, refl, arith, List, some, ℤ, pos}
use defrizer.Endian.{little, big}
use defrizer.Uapi.{linux, linux-IsLayout}
use defrizer.Memory.Laws.{At-start}
use defrizer.Spec.Layers.{be16, segment, classify}
use defrizer.Spec.Policy.{passes, aborts, announced, traced}
use defrizer.Program.Action.{action_code}
use defrizer.Program.Sock.{xdp_sock_prog}
use defrizer.Program.Event.{EventHelpers, perf_event_test}
use defrizer.Program.Delivery.{event_delivers}
use defrizer.Program.Agreement.{variants_agree, event_announces_only}
use defrizer.Parse.{parse_ethhdr, parse_iphdr, parse_ip6hdr, parse_tcphdr, parse_udphdr}
use defrizer.Parse.Bounds.{Moves, cursor_bounds}
use defrizer.Tests.Data.{
  tagged_segment, tagged_segment-IsPlaced, counting, recording, tcp_packet, tcp_packet-IsPlaced,
}
use defrizer.Tests.Frames.{sample, sample-IsFrame, sample_sent}

cursor_bounds_example :
    Moves tcp_packet 4096 22 (parse_ethhdr linux little tcp_packet 4096)
    × Moves tcp_packet 4096 60 (parse_iphdr linux tcp_packet 4096)
    × Moves tcp_packet 4096 40 (parse_ip6hdr linux tcp_packet 4096)
    × Moves tcp_packet 4096 60 (parse_tcphdr linux tcp_packet 4096)
    × Moves tcp_packet 4096 8 (parse_udphdr linux little tcp_packet 4096)
cursor_bounds_example =
    cursor_bounds linux-IsLayout tcp_packet-IsPlaced (At-start tcp_packet) little

four_ne_aborts : pos 4 ≢ aborts
unfolding action_code
four_ne_aborts z = ground arith

variants_agree_example :
    (r : ℤ × ℕ) × (s : ℤ × ℕ) × (xdp_sock_prog counting linux big tagged_segment 0 ≡ some r)
    × (perf_event_test recording linux big tagged_segment 0 ≡ some s)
    × ((r.0 ≡ aborts) ↔ (s.0 ≡ aborts))
variants_agree_example =
    variants_agree counting recording linux big tagged_segment 0 0 64 four_ne_aborts (λ w. refl)
      linux-IsLayout tagged_segment-IsPlaced refl

-- The state is the number of traces and the number of events.
abbrev ringing : EventHelpers (ℕ × ℕ)
ringing = record {
  trace_printk = λ w fmt size args. (w.0 + 1, w.1);
  ringbuf_output = λ w bytes size flags. (0, (w.0, w.1 + 1));
}

abbrev rung : ℕ × ℕ → ℕ
rung w = w.1

greeted : perf_event_test ringing linux little tagged_segment (0, 0) ≡ some (passes, (1, 1))
unfolding announced traced
greeted =
    event_delivers ringing little tagged_segment (0, 0) tagged_segment-IsPlaced sample
      sample-IsFrame sample_sent

one_ne_zero : rung (1, 1) ≢ rung (0, 0)
one_ne_zero = omega arith

event_announces_only_example :
    (xs : List ℕ) × (classify linux tagged_segment.frame ≡ segment xs)
    × (be16 xs linux.tcphdr_dest ≡ 7777)
event_announces_only_example =
    event_announces_only ringing rung linux little tagged_segment (0, 0) (λ w fmt size args. refl)
      (1, 1) passes linux-IsLayout tagged_segment-IsPlaced greeted one_ne_zero
