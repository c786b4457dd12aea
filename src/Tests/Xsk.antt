-- ===== src/Tests/Xsk.antt =====
-- A socket to which each poll brings the packet of `Data`; a descriptor is the frame itself.
use mathlib.Core.List.{append-nil}
use defrizer.Common.{
  ℕ, ◌≡◌, refl, sym, ap, ◌∙◌, inr, List, [], ◌∷◌, ◌++◌, map, none, some, ◌==◌, if◌then◌else◌,
}
use defrizer.Endian.{little}
use defrizer.Program.Action.{action_code}
use defrizer.Program.Sock.{SockHelpers}
use defrizer.Program.Delivery.{sock_delivers}
use defrizer.Program.Redirects.{Redirected, redirected, IsWatched}
use defrizer.Driver.{pure}
use defrizer.Driver.Ensures.{ensured}
use defrizer.Driver.Frames.{Host, round, fill_free, show_received, show_frames, show_layer}
use defrizer.Driver.Frames.Ledger.{Ledger, blank, tracked}
use defrizer.Driver.Frames.Rounds.{lines_of}
use defrizer.Driver.Frames.Serving.{Serves, next, idle}
use defrizer.Driver.Xsk.{XskView, All, Grows, Leaves, IsXsk}
use defrizer.Driver.Xsk.Shown.{loop_shows}
use defrizer.Tests.Data.{tagged_segment, tagged_segment-IsPlaced}
use defrizer.Tests.Drivers.{layer_in}
use defrizer.Tests.Frames.{sample, sample-IsFrame, sample_sent}

record Wire : Type 0 where
  came : List (List ℕ)
  waiting : List (List ℕ)
  held : List (List ℕ)

abbrev wire : List (List ℕ) → List (List ℕ) → List (List ℕ) → Wire
wire came waiting held = record { came = came; waiting = waiting; held = held }

abbrev frame : List ℕ
frame = tagged_segment.frame

abbrev open_maps : SockHelpers Wire
open_maps = record {
  map_lookup_elem = λ w i. if i == 3 then some 64 else none;
  read_int = λ w p. if p == 64 then 1 else 0;
  redirect_map = λ w i flags. (4, w);
}

frame-Redirected : Redirected open_maps frame
unfolding action_code
frame-Redirected =
    redirected little tagged_segment (wire [] [] []) (wire [] [] []) refl tagged_segment-IsPlaced (
      sock_delivers open_maps little tagged_segment (wire [] [] []) tagged_segment-IsPlaced sample
        sample-IsFrame sample_sent 64 refl)

abbrev bringing : Host Wire ℕ ℕ (List ℕ) ℕ
bringing = record {
  interfaces = pure (inr []);
  new_program = pure (inr 7);
  close = λ p. pure none;
  attach = λ p i. pure none;
  detach = λ p i. pure none;
  new_socket = λ i q. pure (inr 9);
  fd = λ s. s;
  register = λ p q fd. pure none;
  unregister = λ p q. pure none;
  num_free_fill_slots = λ s. pure 2;
  get_descs = λ s n rx. pure [];
  fill = λ s ds w. some (0, record w { held = [] });
  poll = λ s t w.
      some
        (inr (1, 0), record w { came = w.came ++ frame ∷ []; waiting = w.waiting ++ frame ∷ [] });
  receive = λ s n w. some (w.waiting, record w { waiting = []; held = w.held ++ w.waiting });
  get_frame = λ s d. pure d;
  tcp_layer = layer_in;
  printf = λ line. pure tt;
}

abbrev wire_view : XskView Wire (List ℕ)
wire_view = record {
  delivered = λ w. w.came;
  queue = λ w. w.waiting;
  owned = λ w. w.held;
  umem = λ w d. d;
}

All-refl : {A : Type 0} (f : A → List ℕ) (xs : List A) → All (λ x. f x ≡ f x) xs
All-refl f [] = tt
All-refl f (x ∷ xs) = (refl, All-refl f xs)

map-id : (xs : List (List ℕ)) → xs ≡ map (λ x. x) xs
map-id [] = refl
map-id (x ∷ xs) = ap (λ ys. x ∷ ys) (map-id xs)

quiet : (w w' : Wire) → w'.came ≡ w.came → w'.waiting ≡ w.waiting → Grows open_maps wire_view w w'
quiet w w' e f = record {
  added = [];
  delivered_grows = e ∙ sym (append-nil w.came);
  queue_grows = f ∙ sym (append-nil w.waiting);
  answered = tt;
}

unmoved : (w : Wire) → Leaves open_maps wire_view w w
unmoved w = record { owned_same = refl; umem_same = All-refl (λ d. d) w.held }

bringing-IsXsk : IsXsk open_maps bringing 9 wire_view
bringing-IsXsk = record {
  slots_grows = λ w. ensured (quiet w w refl refl);
  descs_grows = λ n rx w. ensured (quiet w w refl refl);
  fill_grows = λ ds w. ensured (quiet w (record w { held = [] }) refl refl);
  poll_grows = λ t w. ensured (record {
    added = frame ∷ [];
    delivered_grows = refl;
    queue_grows = refl;
    answered = (frame-Redirected, tt);
  });
  receive_takes = λ n w. ensured (record {
    added = [];
    delivered_grows = sym (append-nil w.came);
    answered = tt;
    taken = append-nil w.waiting ∙ (map-id w.waiting ∙ sym (append-nil (map (λ x. x) w.waiting)));
    owned_grows = refl;
  });
  frame_reads = λ d before behind w e. ensured (refl, quiet w w refl refl, unmoved w);
  printf_leaves = λ x w. ensured (quiet w w refl refl, unmoved w);
}

abbrev after_one : Wire
after_one = wire (frame ∷ []) [] (frame ∷ [])

abbrev after_two : Wire
after_two = wire (frame ∷ frame ∷ []) [] (frame ∷ [])

two_rounds : Serves bringing 9 2 (wire [] [] []) after_two
unfolding round fill_free show_received show_frames show_layer
two_rounds =
    next {w = wire [] [] []} {w1 = after_one} refl (next {w = after_one} {w1 = after_two} refl idle)

loop_shows_example :
    (l : Ledger (List ℕ)) × Serves (tracked bringing) 9 2 (wire [] [] [], blank) (after_two, l)
    × (frame ∷ frame ∷ [] ≡ l.frames ++ [])
    × (l.lines ≡ lines_of layer_in l.frames)
    × All IsWatched l.frames
loop_shows_example =
    loop_shows open_maps bringing 9 wire_view bringing-IsXsk 2 (wire [] [] []) after_two refl refl
      two_rounds
