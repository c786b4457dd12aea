-- ===== src/Tests/Frames.antt =====
-- A frame by its fields, sent as the packet of `Data`, and the helpers of the programs.
use defrizer.Common.{ℕ, ◌≡◌, ◌≢◌, refl, arith, [], ◌∷◌, some, false, pos, get_elem?}
use defrizer.Endian.{little, big}
use defrizer.Uapi.{linux, linux-IsLayout}
use defrizer.Spec.Frame.{Frame, v4, IsFrame, encode, tcp_octets, tag_octets, network_octets}
use defrizer.Spec.Policy.{announced, traced}
use defrizer.Program.Sock.{xdp_sock_prog}
use defrizer.Program.Event.{perf_event_test}
use defrizer.Program.Delivery.{sock_delivers, event_delivers, sock_diverts_only, Watched}
use defrizer.Helpers.Types.{Helper, helper, long, pointer, u32, u64, value, zero_or_error}
use defrizer.Helpers.Table.{helpers}
use defrizer.Tests.Data.{tagged_segment, tagged_segment-IsPlaced, counting, recording}

abbrev pub sample : Frame
sample = record {
  macs = 1 ∷ 2 ∷ 3 ∷ 4 ∷ 5 ∷ 6 ∷ 7 ∷ 8 ∷ 9 ∷ 10 ∷ 11 ∷ 12 ∷ [];
  tags = record { provider = false; tci = 0x2005 } ∷ [];
  network =
      v4 5 (0 ∷ 0 ∷ 40 ∷ 0 ∷ 0 ∷ 0 ∷ 0 ∷ 64 ∷ []) (0 ∷ 0 ∷ 10 ∷ 0 ∷ 0 ∷ 1 ∷ 10 ∷ 0 ∷ 0 ∷ 2 ∷ []);
  source = 110;
  dest = 7777;
  numbers = 0 ∷ 0 ∷ 1 ∷ 2 ∷ 0 ∷ 0 ∷ 0 ∷ 0 ∷ [];
  doff = 5;
  reserved = 0;
  tcp_rest = 2 ∷ 0 ∷ 0 ∷ 0 ∷ 0 ∷ 0 ∷ 0 ∷ [];
  payload = [];
}

pub sample-IsFrame : IsFrame sample
sample-IsFrame = omega arith

pub sample_sent : tagged_segment.frame ≡ encode sample
unfolding encode tag_octets network_octets tcp_octets
sample_sent = refl

sock_delivers_example : xdp_sock_prog counting linux little tagged_segment 0 ≡ some (pos 4, 1)
sock_delivers_example =
    sock_delivers counting little tagged_segment 0 tagged_segment-IsPlaced sample sample-IsFrame
      sample_sent 64 refl

event_delivers_example :
    perf_event_test recording linux big tagged_segment 0
    ≡ some (announced recording (traced recording linux big 0 (tcp_octets sample)))
event_delivers_example =
    event_delivers recording big tagged_segment 0 tagged_segment-IsPlaced sample sample-IsFrame
      sample_sent

one_ne_zero : ◌≢◌ {A = ℕ} 1 0
one_ne_zero = omega arith

sock_diverts_only_example : Watched counting linux tagged_segment 0
sock_diverts_only_example =
    sock_diverts_only counting tagged_segment 0 little 1 (pos 4) linux-IsLayout
      tagged_segment-IsPlaced sock_delivers_example one_ne_zero

abbrev redirect_map : Helper
redirect_map = helper "redirect_map" long (pointer "void" ∷ u32 ∷ u64 ∷ []) value 51

abbrev ringbuf_output : Helper
ringbuf_output =
    helper "ringbuf_output" long (pointer "void" ∷ pointer "void" ∷ u64 ∷ u64 ∷ []) zero_or_error
      130

redirect_map_declared : get_elem? helpers 50 ≡ some redirect_map
unfolding helpers
redirect_map_declared = refl

ringbuf_output_declared : get_elem? helpers 129 ≡ some ringbuf_output
unfolding helpers
ringbuf_output_declared = refl
