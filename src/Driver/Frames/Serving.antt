-- ===== src/Driver/Frames/Serving.antt =====
-- The endless loop of `main` of dumpframes/src/dumpframes.go, as long as no poll fails.
use std.Path.{subst}
use native.Mathlib.Nat.{zero-add, suc-add}
use mathlib.Core.List.{append-nil}
use defrizer.Common.{ℕ, zero, suc, ◌+◌, ◌≡◌, refl, sym, ap, ◌∙◌, [], false, none, some}
use defrizer.Driver.Held.{Held}
use defrizer.Driver.Track.{Tracks, Tracks-ends}
use defrizer.Driver.Frames.{Host, round, rounds}
use defrizer.Driver.Frames.Ledger.{Ledger, blank, tracked}
use defrizer.Driver.Frames.Rounds.{Reading, lines_of, round-Tracks}

-- Rounds whose polls do not fail, one after the other.
pub data Serves {W P S D E : Type 0} (h : Host W P S D E) (s : S) : ℕ → W → W → Type 0 where
  idle : {w : W} → Serves h s zero w w
  next :
      {n : ℕ} {w w1 w2 : W}
      → round h s w ≡ some (none, w1)
      → Serves h s n w1 w2
      → Serves h s (suc n) w w2

module _ {W P S D E : Type 0} (h : Host W P S D E) (s : S) where
  rounds-Serves :
      (fuel n : ℕ) (w w' : W) → Serves h s n w w' → rounds h (n + fuel) s w ≡ rounds h fuel s w'
  unfolding rounds
  rounds-Serves fuel _ w _ idle = ap (λ k. rounds h k s w) (zero-add fuel)
  rounds-Serves fuel _ w w' (next {n} {w1 = w1} e rest) =
      rw (suc-add n fuel, rounds, e) (rounds-Serves fuel n w1 w' rest)

  Serves-Reading :
      (n : ℕ) (w w' : W) (l : Ledger D) (held : Held × ℕ)
      → Serves h s n w w'
      → Reading h.tcp_layer held [] [] l
      → (l' : Ledger D) × Serves (tracked h) s n (w, l) (w', l') × Reading h.tcp_layer held [] [] l'
  Serves-Reading _ w _ l held idle r = (l, idle, r)
  Serves-Reading _ w w' l held (next {n} {w1 = w1} e rest) r =
      let one = Tracks-ends (
        subst (Tracks (λ _. Reading h.tcp_layer held [] []) (round (tracked h) s (w, l))) e
          (round-Tracks h held s w l r)) in
      let more = Serves-Reading n w1 w' one.0 held rest one.2 in (more.0, next one.1 more.1, more.2)

  -- After `n` rounds of the endless loop whose polls do not fail, all descriptors that came from the
  -- Rx ring were read once and in order, the Fill ring was filled at no time at which a received frame
  -- was unread, and the lines about the frames that were read are printed; the loop goes on from
  -- there, for `fuel` further rounds.
  pub loop_goes_on :
      (fuel n : ℕ) (w w' : W)
      → Serves h s n w w'
      → (l : Ledger D) × Serves (tracked h) s n (w, blank) (w', l)
        × (l.read ≡ l.received)
        × (l.spoiled ≡ false)
        × (l.lines ≡ lines_of h.tcp_layer l.frames)
        × (rounds h (n + fuel) s w ≡ rounds h fuel s w')
  unfolding lines_of
  loop_goes_on fuel n w w' serves =
      let start : Reading h.tcp_layer (some [], 0) [] [] (blank {D = D}) = record {
        keeps = refl;
        rest = refl;
        left = refl;
        clean = refl;
        shown = refl;
      } in
      let all = Serves-Reading n w w' blank (some [], 0) serves start in
      let c = all.2 in
      (
        all.0,
        all.1,
        sym (c.rest ∙ append-nil _),
        c.clean,
        sym (append-nil _) ∙ c.shown,
        rounds-Serves fuel n w w' serves,
      )
