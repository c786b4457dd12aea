-- ===== src/Driver/Linked/Leaves.antt =====
-- The loop of `main` leaves the kernel's maps as they are, if the calls in it do.
use std.Path.{subst}
use defrizer.Common.{
  ℕ, ◌≡◌, ◌∙◌, ◌⊎◌, inl, inr, List, [], ◌∷◌, Bool, true, Option, none, some, ltb, Bool-cases, ℤ,
  minus_one,
}
use defrizer.Driver.{Run, pure, ◌>>◌, and_then, either}
use defrizer.Driver.Frames.{
  Host, Line, waiting, tcp_header, tcp_data, TcpLayer, show_layer, show_frames, fill_free,
  show_received, round,
}
use defrizer.Driver.Frames.Serving.{Serves, idle, next}
use defrizer.Maps.Kernel.{MapView}

-- The entries and the sockets are the same in two states.
unfoldable pub SameMaps : {W : Type 0} → MapView W → W → W → Type 0
SameMaps v w w' = (j : ℕ) → (v.entry w' j ≡ v.entry w j) × (v.socket w' j ≡ v.socket w j)

-- If a call comes back, the state is as `J` says.
pub data After {W A : Type 0} (J : W → Type 0) : Option (A × W) → Type 0 where
  nowhere : After J none
  there : {a : A} {w : W} → J w → After J (some (a, w))

-- The calls in the loop leave the maps as they are.
pub record LeavesMaps {W P S D E : Type 0} (h : Host W P S D E) (v : MapView W) : Type 0 where
  pub slots_leaves : (s : S) (w : W) → After (SameMaps v w) (h.num_free_fill_slots s w)
  pub descs_leaves : (s : S) (n : ℕ) (b : Bool) (w : W) → After (SameMaps v w) (h.get_descs s n b w)
  pub fill_leaves : (s : S) (ds : List D) (w : W) → After (SameMaps v w) (h.fill s ds w)
  pub poll_leaves : (s : S) (t : ℤ) (w : W) → After (SameMaps v w) (h.poll s t w)
  pub receive_leaves : (s : S) (n : ℕ) (w : W) → After (SameMaps v w) (h.receive s n w)
  pub frame_leaves : (s : S) (d : D) (w : W) → After (SameMaps v w) (h.get_frame s d w)
  pub printf_leaves : (x : Line) (w : W) → After (SameMaps v w) (h.printf x w)

module _ {W A : Type 0} {J : W → Type 0} where
  After-bind :
      {B : Type 0} {m : Option (A × W)} (f : A → Run W B)
      → After J m
      → ((a : A) (w : W) → J w → After J (f a w))
      → After J (and_then m f)
  After-bind f nowhere rest = nowhere
  After-bind f (there j) rest = rest _ _ j

  After-ends : {a : A} {w : W} → After J (some (a, w)) → J w
  After-ends (there j) = j

  After-map : {K : W → Type 0} {o : Option (A × W)} → After J o → ((w : W) → J w → K w) → After K o
  After-map nowhere wider = nowhere
  After-map (there j) wider = there (wider _ j)

module _ {W P S D E : Type 0} (h : Host W P S D E) (v : MapView W) (leaves : LeavesMaps h v)
    (w0 : W) where
  abbrev Same : W → Type 0
  Same = SameMaps v w0

  on : {A : Type 0} {o : Option (A × W)} (w : W) → Same w → After (SameMaps v w) o → After Same o
  unfolding SameMaps
  on w same left = After-map left λ w' same' j. ((same' j).0 ∙ (same j).0, (same' j).1 ∙ (same j).1)

  show_layer-After : (layer : Option TcpLayer) (w : W) → Same w → After Same (show_layer h layer w)
  unfolding show_layer
  show_layer-After none w same = there same
  show_layer-After (some t) w same =
      After-bind _ (on w same (leaves.printf_leaves (tcp_header t) w))
        λ _ w1 same1. on w1 same1 (leaves.printf_leaves (tcp_data t.payload) w1)

  show_frames-After : (s : S) (ds : List D) (w : W) → Same w → After Same (show_frames h s ds w)
  unfolding show_frames
  show_frames-After s [] w same = there same
  show_frames-After s (d ∷ ds) w same =
      After-bind _ (on w same (leaves.frame_leaves s d w)) λ f w1 same1.
        After-bind _ (show_layer-After (h.tcp_layer f) w1 same1)
          λ _ w2 same2. show_frames-After s ds w2 same2

  fill_free-After : (s : S) (n : ℕ) (w : W) → Same w → After Same (fill_free h s n w)
  unfolding fill_free
  fill_free-After s n w same = elim (Bool-cases (ltb 0 n)) [
    | inl some_free ↦ rw (some_free) (
        After-bind _ (on w same (leaves.descs_leaves s n true w)) λ ds w1 same1.
          After-bind _ (on w1 same1 (leaves.fill_leaves s ds w1)) λ _ w2 same2. there same2)
    | inr none_free ↦ rw (none_free) (there same)
  ]

  received-After :
      (s : S) (polled : E ⊎ (ℕ × ℕ)) (w : W)
      → Same w
      → After Same
          (either polled (λ err. pure (some err)) (λ r. do show_received h s r.0; pure none) w)
  unfolding show_received
  received-After s (inl err) w same = there same
  received-After s (inr (n, _)) w same = elim (Bool-cases (ltb 0 n)) [
    | inl arrived ↦ rw (arrived) (
        After-bind _
          (After-bind _ (on w same (leaves.receive_leaves s n w))
            λ ds w1 same1. show_frames-After s ds w1 same1)
          λ _ w2 same2. there same2)
    | inr nothing ↦ rw (nothing) (there same)
  ]

  round-After : (s : S) (w : W) → Same w → After Same (round h s w)
  unfolding round
  round-After s w same = After-bind _ (on w same (leaves.slots_leaves s w)) λ n w1 same1.
      After-bind _ (fill_free-After s n w1 same1) λ _ w2 same2.
        After-bind _ (on w2 same2 (leaves.printf_leaves waiting w2)) λ _ w3 same3.
          After-bind _ (on w3 same3 (leaves.poll_leaves s minus_one w3))
            λ polled w4 same4. received-After s polled w4 same4

  -- The maps after any number of rounds.
  pub Serves-SameMaps : (s : S) (n : ℕ) (w w' : W) → Serves h s n w w' → Same w → Same w'
  Serves-SameMaps s _ w _ idle same = same
  Serves-SameMaps s _ w w' (next {n} {w1 = w1} e rest) same =
      Serves-SameMaps s n w1 w' rest (After-ends (subst (After Same) e (round-After s w same)))
