-- ===== src/Driver/Frames/Rounds.antt =====
-- The rounds of `main`'s loop beside the ledger: what is received, read and printed.
use mathlib.Core.List.{append-nil, append_assoc}
use defrizer.Common.{
  ℕ, zero, suc, ◌≡◌, refl, sym, ap, ◌∙◌, arith, inl, inr, List, [], ◌∷◌, ◌++◌, true, false, Option,
  none, some, ltb, length, Bool-cases, minus_one,
}
use defrizer.Driver.Held.{Held}
use defrizer.Driver.Track.{
  Tracks, Tracks-bind, noting-Tracks, checked-Tracks, either-Tracks, Split-same, comes_back, stuck,
}
use defrizer.Driver.Frames.{
  Host, Line, waiting, tcp_header, tcp_data, TcpLayer, show_layer, show_frames, fill_free,
  show_received, round, rounds,
}
use defrizer.Driver.{Exit, poll_failed}
use defrizer.Driver.Frames.Ledger.{Ledger, filled, came, looked_at, said, tracked}

-- The lines about a frame, and about several.
unfoldable pub layer_lines : Option TcpLayer → List Line
layer_lines none = []
layer_lines (some t) = tcp_header t ∷ tcp_data t.payload ∷ []

unfoldable pub lines_of : (List ℕ → Option TcpLayer) → List (List ℕ) → List Line
lines_of g [] = []
lines_of g (f ∷ fs) = layer_lines (g f) ++ lines_of g fs

lines_of-snoc :
    (g : List ℕ → Option TcpLayer) (fs : List (List ℕ)) (f : List ℕ)
    → lines_of g (fs ++ f ∷ []) ≡ lines_of g fs ++ layer_lines (g f)
unfolding lines_of
lines_of-snoc g [] f = append-nil (layer_lines (g f))
lines_of-snoc g (x ∷ fs) f =
    rw (lines_of-snoc g fs f)
      (sym (append_assoc (layer_lines (g x)) (lines_of g fs) (layer_lines (g f))))

-- The descriptors `ds` are received and unread, and the lines `todo` about frames that were read are
-- not printed yet. The Fill ring was never filled while frames were unread.
pub record Reading {D : Type 0} (g : List ℕ → Option TcpLayer) (held : Held × ℕ) (todo : List Line)
    (ds : List D) (l : Ledger D) : Type 0 where
  pub keeps : (l.held, l.sockets) ≡ held
  pub rest : l.received ≡ l.read ++ ds
  pub left : l.unread ≡ length ds
  pub clean : l.spoiled ≡ false
  pub shown : l.lines ++ todo ≡ lines_of g l.frames

module _ {D : Type 0} {g : List ℕ → Option TcpLayer} {held : Held × ℕ} (l : Ledger D) where
  said-Reading :
      (x : Line) (todo : List Line) (ds : List D)
      → Reading g held (x ∷ todo) ds l
      → Reading g held todo ds (said x l)
  said-Reading x todo ds r = record {
    keeps = r.keeps;
    rest = r.rest;
    left = r.left;
    clean = r.clean;
    shown = append_assoc l.lines (x ∷ []) todo ∙ r.shown;
  }

  looked_at-Reading :
      (d : D) (ds : List D) (f : List ℕ)
      → Reading g held [] (d ∷ ds) l
      → Reading g held (layer_lines (g f)) ds (looked_at d f l)
  looked_at-Reading d ds f r = record {
    keeps = r.keeps;
    rest = r.rest ∙ sym (append_assoc l.read (d ∷ []) ds);
    left = omega (arith, r.left);
    clean = r.clean;
    shown =
        rw (lines_of-snoc g l.frames f)
          (ap (λ xs. xs ++ layer_lines (g f)) (sym (append-nil l.lines) ∙ r.shown));
  }

  came-Reading : (ds : List D) → Reading g held [] [] l → Reading g held [] ds (came ds l)
  came-Reading ds r = record {
    keeps = r.keeps;
    rest = ap (λ xs. xs ++ ds) (r.rest ∙ append-nil l.read);
    left = omega (arith, r.left);
    clean = r.clean;
    shown = r.shown;
  }

  filled-Reading : (n : ℕ) → Reading g held [] [] l → Reading g held [] [] (filled n l)
  filled-Reading n r = record {
    keeps = r.keeps;
    rest = r.rest;
    left = r.left;
    clean = rw (r.clean, r.left) refl;
    shown = r.shown;
  }

module _ {W P S D E : Type 0} (h : Host W P S D E) (held : Held × ℕ) where
  abbrev During : List Line → List D → Ledger D → Type 0
  During = Reading h.tcp_layer held

  show_layer-Tracks :
      (layer : Option TcpLayer) (ds : List D) (w : W) (l : Ledger D)
      → During (layer_lines layer) ds l
      → Tracks (λ _. During [] ds) (show_layer (tracked h) layer (w, l)) (show_layer h layer w)
  unfolding show_layer tracked layer_lines
  show_layer-Tracks none ds w l r = comes_back r
  show_layer-Tracks (some t) ds w l r =
      Tracks-bind _ _
        (noting-Tracks {Q = λ _. During (tcp_data t.payload ∷ []) ds} (h.printf (tcp_header t))
          (λ _. said (tcp_header t)) w l
          (λ _. said-Reading l (tcp_header t) (tcp_data t.payload ∷ []) ds r))
        λ _ w' l' r'.
          noting-Tracks (h.printf (tcp_data t.payload)) (λ _. said (tcp_data t.payload)) w' l'
            (λ _. said-Reading l' (tcp_data t.payload) [] ds r')

  show_frames-Tracks :
      (s : S) (ds : List D) (w : W) (l : Ledger D)
      → During [] ds l
      → Tracks (λ _. During [] []) (show_frames (tracked h) s ds (w, l)) (show_frames h s ds w)
  unfolding show_frames tracked
  show_frames-Tracks s [] w l r = comes_back r
  show_frames-Tracks s (d ∷ ds) w l r =
      Tracks-bind _ _
        (noting-Tracks {Q = λ f. During (layer_lines (h.tcp_layer f)) ds} (h.get_frame s d)
          (looked_at d) w l (λ f. looked_at-Reading l d ds f r))
        λ f w1 l1 r1.
          Tracks-bind _ _ (show_layer-Tracks (h.tcp_layer f) ds w1 l1 r1)
            λ _ w2 l2 r2. show_frames-Tracks s ds w2 l2 r2

  fill_free-Tracks :
      (s : S) (n : ℕ) (w : W) (l : Ledger D)
      → During [] [] l
      → Tracks (λ _. During [] []) (fill_free (tracked h) s n (w, l)) (fill_free h s n w)
  unfolding fill_free tracked
  fill_free-Tracks s n w l r = elim (Bool-cases (ltb 0 n)) [
    | inl some_free ↦ rw (some_free) (
        Tracks-bind _ _
          (noting-Tracks {Q = λ _. During [] []} (h.get_descs s n true) (λ _ l'. l') w l (λ _. r))
          λ ds w1 l1 r1.
            Tracks-bind _ _
              (noting-Tracks {Q = λ _. During [] []} (h.fill s ds) filled w1 l1
                (λ n'. filled-Reading l1 n' r1))
              λ _ w2 l2 r2. comes_back r2)
    | inr none_free ↦ rw (none_free) (comes_back r)
  ]

  show_received-Tracks :
      (s : S) (n : ℕ) (w : W) (l : Ledger D)
      → During [] [] l
      → Tracks (λ _. During [] []) (show_received (tracked h) s n (w, l)) (show_received h s n w)
  unfolding show_received tracked
  show_received-Tracks s n w l r = elim (Bool-cases (ltb 0 n)) [
    | inl arrived ↦ rw (arrived) (
        Tracks-bind _ _
          (noting-Tracks {Q = λ ds. During [] ds} (h.receive s n) came w l
            (λ ds. came-Reading l ds r))
          λ ds w1 l1 r1. show_frames-Tracks s ds w1 l1 r1)
    | inr nothing ↦ rw (nothing) (comes_back r)
  ]

  -- One round, from a state in which all is read and printed to another.
  pub round-Tracks :
      (s : S) (w : W) (l : Ledger D)
      → During [] [] l
      → Tracks (λ _. During [] []) (round (tracked h) s (w, l)) (round h s w)
  unfolding round tracked
  round-Tracks s w l r =
      Tracks-bind _ _
        (noting-Tracks {Q = λ _. During [] []} (h.num_free_fill_slots s) (λ _ l'. l') w l (λ _. r))
        λ n w1 l1 r1. Tracks-bind _ _ (fill_free-Tracks s n w1 l1 r1) λ _ w2 l2 r2.
          Tracks-bind _ _
            (noting-Tracks {Q = λ _. During [] []} (h.printf waiting) (λ _ l'. l') w2 l2 (λ _. r2))
            λ _ w3 l3 r3.
              Tracks-bind _ _
                (noting-Tracks {Q = λ _. During [] []} (h.poll s minus_one) (λ _ l'. l') w3 l3
                  (λ _. r3))
                λ polled w4 l4 r4.
                  either-Tracks (λ _. During [] []) _ _ _ _ polled w4 l4 r4
                    (λ err r5. comes_back r5)
                    (λ n_rx r5.
                      Tracks-bind _ _ (show_received-Tracks s (n_rx.0) w4 l4 r5)
                        λ _ w5 l5 r6. comes_back r6)

  -- All rounds, for any number of them: they end at a failed poll.
  abbrev pub Polled : Exit E → Ledger D → Type 0
  Polled exit l = ((err : E) × (exit ≡ poll_failed err)) × During [] [] l

  pub rounds-Tracks :
      (fuel : ℕ) (s : S) (w : W) (l : Ledger D)
      → During [] [] l
      → Tracks Polled (rounds (tracked h) fuel s (w, l)) (rounds h fuel s w)
  unfolding rounds
  rounds-Tracks zero s w l r = stuck
  rounds-Tracks (suc fuel) s w l r = Tracks-bind _ _ (round-Tracks s w l r) λ ended w1 l1 r1.
      checked-Tracks (During [] []) (During [] []) _ _ _ _ ended w1 l1
        (Split-same (During [] []) ended l1 r1) (λ err r2. comes_back ((err, refl), r2))
        (λ r2. rounds-Tracks fuel s w1 l1 r2)
