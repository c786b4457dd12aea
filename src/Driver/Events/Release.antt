-- ===== src/Driver/Events/Release.antt =====
-- `main` of perf_event/src/dumpframes.go beside the ledger.
use std.Path.{subst}
use Prim.Native.String.{String}
use mathlib.Core.List.{append-nil}
use defrizer.Common.{
  ℕ, zero, suc, ◌≡◌, refl, sym, ap, ◌∙◌, ◌⊎◌, inl, inr, List, [], ◌∷◌, ◌++◌, Option, none, some, ℤ,
  pos, negsuc,
}
use defrizer.Driver.{Exit, find_ifindex}
use defrizer.Driver.Held.{Resource, program, reader, link, take_up, give_back-take_up}
use defrizer.Driver.Track.{
  Tracks, Tracks-bind, Tracks-ends, noting-Tracks, deferring-Tracks, checked-Tracks, either-Tracks,
  Split, Split-same, comes_back, stuck,
}
use defrizer.Driver.Events.{Host, samples, open_reader, attach_and_read, with_interface, main}
use defrizer.Driver.Events.Ledger.{
  Ledger, blank, holding, dropping, taken, opened, sampling, showing, tracked,
}

-- This is held, and of the samples that were read all but `todo` are printed.
record Owes (rs : List Resource) (todo : List (List ℕ)) (l : Ledger) : Type 0 where
  pub keeps : l.held ≡ some rs
  pub order : l.sampled ≡ l.shown ++ todo

abbrev At : List Resource → Ledger → Type 0
At rs = Owes rs []

holding-At : (r : Resource) (rs : List Resource) (l : Ledger) → At rs l → At (r ∷ rs) (holding r l)
unfolding take_up
holding-At r rs l c = record { keeps = rw (c.keeps) refl; order = c.order }

dropping-At :
    (r : Resource) (rs : List Resource) (l : Ledger) → At (r ∷ rs) l → At rs (dropping r l)
unfolding take_up
dropping-At r rs l c = record {
  keeps = rw (c.keeps) (give_back-take_up r (some rs) rs refl);
  order = c.order;
}

taken-Split :
    {E : Type 0} (r : Resource) (rs : List Resource) (l : Ledger) (failure : Option E)
    → At rs l
    → Split (At (r ∷ rs)) (At rs) failure (taken r failure l)
taken-Split r rs l none c = holding-At r rs l c
taken-Split r rs l (some err) c = c

abbrev Opened : {E A : Type 0} → Resource → List Resource → E ⊎ A → Ledger → Type 0
Opened r rs (inl err) = At rs
Opened r rs (inr a) = At (r ∷ rs)

opened-Opened :
    {E A : Type 0} (r : Resource) (rs : List Resource) (l : Ledger) (x : E ⊎ A)
    → At rs l
    → Opened r rs x (opened r x l)
opened-Opened r rs l (inl err) c = c
opened-Opened r rs l (inr a) c = holding-At r rs l c

abbrev Sampled : {E : Type 0} → List Resource → E ⊎ List ℕ → Ledger → Type 0
Sampled rs (inl err) = At rs
Sampled rs (inr sample) = Owes rs (sample ∷ [])

sampling-Sampled :
    {E : Type 0} (rs : List Resource) (l : Ledger) (x : E ⊎ List ℕ)
    → At rs l
    → Sampled rs x (sampling x l)
sampling-Sampled rs l (inl err) c = c
sampling-Sampled rs l (inr sample) c = record {
  keeps = c.keeps;
  order = ap (λ xs. xs ++ sample ∷ []) (c.order ∙ append-nil l.shown);
}

module _ {W P R E : Type 0} (h : Host W P R E) where
  abbrev Ends : List Resource → Exit E → Ledger → Type 0
  Ends rs _ = At rs

  samples-Tracks :
      (fuel : ℕ) (rd : R) (rs : List Resource) (w : W) (l : Ledger)
      → At rs l
      → Tracks (Ends rs) (samples (tracked h) fuel rd (w, l)) (samples h fuel rd w)
  unfolding samples tracked
  samples-Tracks zero rd rs w l c = stuck
  samples-Tracks (suc fuel) rd rs w l c =
      Tracks-bind _ _
        (noting-Tracks {Q = Sampled rs} (h.read rd) sampling w l (λ x. sampling-Sampled rs l x c))
        λ got w1 l1 c1.
          either-Tracks (Sampled rs) _ _ _ _ got w1 l1 c1 (λ err c2. comes_back c2)
            (λ sample c2.
              Tracks-bind _ _
                (noting-Tracks {Q = λ _. At rs} (h.println sample) (λ _. showing sample) w1 l1
                  (λ _. record { keeps = c2.keeps; order = c2.order ∙ sym (append-nil _) }))
                λ _ w2 l2 c3. samples-Tracks fuel rd rs w2 l2 c3)

  open_reader-Tracks :
      (fuel : ℕ) (p : P) (rs : List Resource) (w : W) (l : Ledger)
      → At rs l
      → Tracks (Ends rs) (open_reader (tracked h) fuel p (w, l)) (open_reader h fuel p w)
  unfolding open_reader tracked
  open_reader-Tracks fuel p rs w l c =
      Tracks-bind _ _
        (noting-Tracks {Q = Opened reader rs} (h.new_reader p) (opened reader) w l
          (λ x. opened-Opened reader rs l x c))
        λ x w1 l1 c1.
          either-Tracks (Opened reader rs) _ _ _ _ x w1 l1 c1 (λ err c2. comes_back c2)
            (λ rd c2.
              deferring-Tracks _ _ _ _ w1 l1 (samples-Tracks fuel rd (reader ∷ rs) w1 l1 c2)
                (λ a w2 l2 c3.
                  noting-Tracks (h.close_reader rd) (λ _. dropping reader) w2 l2
                    (λ _. dropping-At reader rs l2 c3)))

  attach_and_read-Tracks :
      (fuel : ℕ) (p : P) (i : ℕ) (rs : List Resource) (w : W) (l : Ledger)
      → At rs l
      → Tracks
          (Ends rs)
          (attach_and_read (tracked h) fuel p i (w, l))
          (attach_and_read h fuel p i w)
  unfolding attach_and_read tracked
  attach_and_read-Tracks fuel p i rs w l c =
      Tracks-bind _ _
        (noting-Tracks {Q = Split (At (link i ∷ rs)) (At rs)} (h.attach p i) (taken (link i)) w l
          (λ o. taken-Split (link i) rs l o c))
        λ failure w1 l1 c1.
          checked-Tracks (At (link i ∷ rs)) (At rs) _ _ _ _ failure w1 l1 c1
            (λ err c2. comes_back c2)
            (λ c2.
              deferring-Tracks _ _ _ _ w1 l1 (open_reader-Tracks fuel p (link i ∷ rs) w1 l1 c2)
                (λ a w2 l2 c3.
                  noting-Tracks (h.detach p i) (λ _. dropping (link i)) w2 l2
                    (λ _. dropping-At (link i) rs l2 c3)))

  with_interface-Tracks :
      (fuel : ℕ) (i : ℤ) (rs : List Resource) (w : W) (l : Ledger)
      → At rs l
      → Tracks (Ends rs) (with_interface (tracked h) fuel i (w, l)) (with_interface h fuel i w)
  unfolding with_interface tracked
  with_interface-Tracks fuel (negsuc _) rs w l c = comes_back c
  with_interface-Tracks fuel (pos i) rs w l c =
      Tracks-bind _ _
        (noting-Tracks {Q = Opened program rs} h.new_program (opened program) w l
          (λ x. opened-Opened program rs l x c))
        λ x w1 l1 c1.
          either-Tracks (Opened program rs) _ _ _ _ x w1 l1 c1 (λ err c2. comes_back c2)
            (λ p c2.
              deferring-Tracks _ _ _ _ w1 l1
                (attach_and_read-Tracks fuel p i (program ∷ rs) w1 l1 c2)
                (λ a w2 l2 c3.
                  noting-Tracks (h.close p) (λ _. dropping program) w2 l2
                    (λ _. dropping-At program rs l2 c3)))

  main-Tracks :
      (fuel : ℕ) (name : String) (rs : List Resource) (w : W) (l : Ledger)
      → At rs l
      → Tracks (Ends rs) (main (tracked h) fuel name (w, l)) (main h fuel name w)
  unfolding main tracked
  main-Tracks fuel name rs w l c =
      Tracks-bind _ _
        (noting-Tracks {Q = Split (At rs) (At rs)} h.remove_memlock (λ _ l'. l') w l
          (λ o. Split-same (At rs) o l c))
        λ refused w0 l0 c0.
          checked-Tracks (At rs) (At rs) _ _ _ _ refused w0 l0 c0 (λ err c1. comes_back c1)
            (λ c1.
              Tracks-bind _ _
                (noting-Tracks {Q = λ _. At rs} h.interfaces (λ _ l'. l') w0 l0 (λ _. c1))
                λ found w1 l1 c2.
                  either-Tracks (λ _. At rs) _ _ _ _ found w1 l1 c2 (λ err c3. comes_back c3)
                    (λ list c3. with_interface-Tracks fuel (find_ifindex name list) rs w1 l1 c3))

  -- If `main` of perf_event/src/dumpframes.go ends, by a return, by the exit when memory cannot be
  -- unlocked or by a panic, it has given back all it took up, in the opposite order, and has printed
  -- each sample that was read once and in order. With the ledger it ends in the same way.
  pub event_main_releases :
      (fuel : ℕ) (name : String) (w w' : W) (exit : Exit E)
      → main h fuel name w ≡ some (exit, w')
      → (l : Ledger) × (main (tracked h) fuel name (w, blank) ≡ some (exit, (w', l)))
        × (l.held ≡ some [])
        × (l.shown ≡ l.sampled)
  event_main_releases fuel name w w' exit e =
      let start : At [] blank = record { keeps = refl; order = refl } in
      let back = main-Tracks fuel name [] w blank start in
      let ends =
        Tracks-ends (subst (Tracks (Ends []) (main (tracked h) fuel name (w, blank))) e back) in
      (ends.0, ends.1, ends.2.keeps, sym (ends.2.order ∙ append-nil _))
