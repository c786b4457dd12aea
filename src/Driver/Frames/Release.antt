-- ===== src/Driver/Frames/Release.antt =====
-- `main` of dumpframes/src/dumpframes.go as a whole beside the ledger: what it releases and leaves open.
use Prim.Native.String.{String}
use std.Path.{subst}
use mathlib.Core.List.{append-nil}
use defrizer.Common.{ℕ, ◌≡◌, refl, sym, ap, ◌∙◌, List, [], ◌∷◌, false, some, ℤ, pos, negsuc}
use defrizer.Driver.{find_ifindex, Exit}
use defrizer.Driver.Held.{Resource, program, link, queue}
use defrizer.Driver.Track.{
  Tracks, Tracks-bind, Tracks-ends, noting-Tracks, deferring-Tracks, checked-Tracks, either-Tracks,
  Split, comes_back,
}
use defrizer.Driver.Frames.{
  Host, serve, open_socket, attach_and_serve, load_and_serve, with_interface, main,
}
use defrizer.Driver.Frames.Ledger.{Ledger, blank, taken, loaded, opened, returned, tracked}
use defrizer.Driver.Frames.Rounds.{lines_of, rounds-Tracks}
use defrizer.Driver.Frames.Calm.{
  Calm, left_open, returned-Calm, taken-Split, Loaded, loaded-Loaded, Opened, opened-Opened,
}

module _ {W P S D E : Type 0} (h : Host W P S D E) where
  abbrev At : List Resource → ℕ → Ledger D → Type 0
  At = Calm h.tcp_layer

  abbrev Ends : List Resource → Exit E → Ledger D → Type 0
  Ends rs exit = At rs (left_open exit)

  serve-Tracks :
      (fuel : ℕ) (p : P) (q : ℕ) (s : S) (rs : List Resource) (w : W) (l : Ledger D)
      → At rs 1 l
      → Tracks (Ends rs) (serve (tracked h) fuel p q s (w, l)) (serve h fuel p q s w)
  unfolding serve tracked left_open
  serve-Tracks fuel p q s rs w l c =
      Tracks-bind _ _
        (noting-Tracks {Q = Split (At (queue q ∷ rs) 1) (At rs 1)} (h.register p q (h.fd s))
          (taken (queue q)) w l (λ o. taken-Split h.tcp_layer rs 1 l (queue q) o c))
        λ failure w1 l1 c1.
          checked-Tracks (At (queue q ∷ rs) 1) (At rs 1) _ _ _ _ failure w1 l1 c1
            (λ err c2. comes_back c2)
            (λ c2.
              deferring-Tracks _ _ _ _ w1 l1
                (rounds-Tracks h (some (queue q ∷ rs), 1) fuel s w1 l1 c2)
                (λ a w2 l2 c3.
                  noting-Tracks (h.unregister p q) (returned (queue q)) w2 l2
                    (λ _. rw (c3.0.1) (returned-Calm l2 (queue q) (c3.1)))))

  open_socket-Tracks :
      (fuel : ℕ) (p : P) (i q : ℕ) (rs : List Resource) (w : W) (l : Ledger D)
      → At rs 0 l
      → Tracks (Ends rs) (open_socket (tracked h) fuel p i q (w, l)) (open_socket h fuel p i q w)
  unfolding open_socket tracked left_open
  open_socket-Tracks fuel p i q rs w l c =
      Tracks-bind _ _
        (noting-Tracks {Q = Opened h.tcp_layer rs} (h.new_socket i q) opened w l
          (λ x. opened-Opened h.tcp_layer rs l x c))
        λ x w1 l1 c1.
          either-Tracks (Opened h.tcp_layer rs) _ _ _ _ x w1 l1 c1 (λ err c2. comes_back c2)
            (λ s c2. serve-Tracks fuel p q s rs w1 l1 c2)

  attach_and_serve-Tracks :
      (fuel : ℕ) (p : P) (i q : ℕ) (rs : List Resource) (w : W) (l : Ledger D)
      → At rs 0 l
      → Tracks
          (Ends rs)
          (attach_and_serve (tracked h) fuel p i q (w, l))
          (attach_and_serve h fuel p i q w)
  unfolding attach_and_serve tracked left_open
  attach_and_serve-Tracks fuel p i q rs w l c =
      Tracks-bind _ _
        (noting-Tracks {Q = Split (At (link i ∷ rs) 0) (At rs 0)} (h.attach p i) (taken (link i)) w
          l (λ o. taken-Split h.tcp_layer rs 0 l (link i) o c))
        λ failure w1 l1 c1.
          checked-Tracks (At (link i ∷ rs) 0) (At rs 0) _ _ _ _ failure w1 l1 c1
            (λ err c2. comes_back c2)
            (λ c2.
              deferring-Tracks _ _ _ _ w1 l1 (open_socket-Tracks fuel p i q (link i ∷ rs) w1 l1 c2)
                (λ a w2 l2 c3.
                  noting-Tracks (h.detach p i) (returned (link i)) w2 l2
                    (λ _. returned-Calm l2 (link i) c3)))

  load_and_serve-Tracks :
      (fuel i q : ℕ) (rs : List Resource) (w : W) (l : Ledger D)
      → At rs 0 l
      → Tracks (Ends rs) (load_and_serve (tracked h) fuel i q (w, l)) (load_and_serve h fuel i q w)
  unfolding load_and_serve tracked left_open
  load_and_serve-Tracks fuel i q rs w l c =
      Tracks-bind _ _
        (noting-Tracks {Q = Loaded h.tcp_layer rs} h.new_program loaded w l
          (λ x. loaded-Loaded h.tcp_layer rs l x c))
        λ x w1 l1 c1.
          either-Tracks (Loaded h.tcp_layer rs) _ _ _ _ x w1 l1 c1 (λ err c2. comes_back c2)
            (λ p c2.
              deferring-Tracks _ _ _ _ w1 l1
                (attach_and_serve-Tracks fuel p i q (program ∷ rs) w1 l1 c2)
                (λ a w2 l2 c3.
                  noting-Tracks (h.close p) (returned program) w2 l2
                    (λ _. returned-Calm l2 program c3)))

  with_interface-Tracks :
      (fuel : ℕ) (i : ℤ) (q : ℕ) (rs : List Resource) (w : W) (l : Ledger D)
      → At rs 0 l
      → Tracks (Ends rs) (with_interface (tracked h) fuel i q (w, l)) (with_interface h fuel i q w)
  unfolding with_interface left_open
  with_interface-Tracks fuel (negsuc _) q rs w l c = comes_back c
  with_interface-Tracks fuel (pos i) q rs w l c = load_and_serve-Tracks fuel i q rs w l c

  main-Tracks :
      (fuel : ℕ) (name : String) (q : ℕ) (rs : List Resource) (w : W) (l : Ledger D)
      → At rs 0 l
      → Tracks (Ends rs) (main (tracked h) fuel name q (w, l)) (main h fuel name q w)
  unfolding main tracked left_open
  main-Tracks fuel name q rs w l c =
      Tracks-bind _ _ (noting-Tracks {Q = λ _. At rs 0} h.interfaces (λ _ l'. l') w l (λ _. c))
        λ found w1 l1 c1.
          either-Tracks (λ _. At rs 0) _ _ _ _ found w1 l1 c1 (λ err c2. comes_back c2)
            (λ list c2. with_interface-Tracks fuel (find_ifindex name list) q rs w1 l1 c2)

  blank-At : At [] 0 blank
  unfolding lines_of
  blank-At = record { keeps = refl; rest = refl; left = refl; clean = refl; shown = refl }

  -- If `main` returns, it has called `Close` for the program that it loaded, `Detach` for the link that
  -- it attached to and `Unregister` for the queue that it registered, each once, in the order opposite
  -- to that in which they were taken up, and whatever these calls return. It has opened one AF_XDP
  -- socket if it ends with an error of `Register` or a failed poll, and none otherwise, and calls
  -- nothing that closes it. Each descriptor from the Rx ring was read once and in order, the Fill ring was filled at no time at which a received
  -- frame was unread, and the lines that were printed are those about the frames that were read.
  -- With the ledger it returns the same result.
  pub main_releases :
      (fuel : ℕ) (name : String) (q : ℕ) (w w' : W) (exit : Exit E)
      → main h fuel name q w ≡ some (exit, w')
      → (l : Ledger D) × (main (tracked h) fuel name q (w, blank) ≡ some (exit, (w', l)))
        × (l.held ≡ some [])
        × (l.sockets ≡ left_open exit)
        × (l.read ≡ l.received)
        × (l.spoiled ≡ false)
        × (l.lines ≡ lines_of h.tcp_layer l.frames)
  main_releases fuel name q w w' exit e =
      let back = main-Tracks fuel name q [] w blank blank-At in
      let ends =
        Tracks-ends (subst (Tracks (Ends []) (main (tracked h) fuel name q (w, blank))) e back) in
      let c = ends.2 in
      (
        ends.0,
        ends.1,
        ap (λ z. z.0) c.keeps,
        ap (λ z. z.1) c.keeps,
        sym (c.rest ∙ append-nil _),
        c.clean,
        sym (append-nil _) ∙ c.shown,
      )
