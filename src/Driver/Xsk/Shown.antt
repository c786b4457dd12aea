-- ===== src/Driver/Xsk/Shown.antt =====
-- The loop of dumpframes/src/dumpframes.go on a socket that `xdp_sock_prog` fills.
use mathlib.Core.List.{append-nil}
use defrizer.Common.{
  ℕ, ◌≡◌, refl, sym, ◌∙◌, inl, inr, ◌⊎◌, List, [], ◌∷◌, ◌++◌, true, Option, none, some, ltb,
  Bool-cases, minus_one,
}
use defrizer.Program.Sock.{SockHelpers}
use defrizer.Program.Redirects.{Redirected, IsWatched, Redirected-IsWatched}
use defrizer.Driver.{pure, ◌>>◌, either}
use defrizer.Driver.Ensures.{Ensures, ensured, Ensures-bind, Ensures-ends, noting-Ensures}
use defrizer.Driver.Frames.{
  Host, Line, waiting, tcp_header, tcp_data, TcpLayer, show_layer, show_frames, fill_free,
  show_received, round,
}
use defrizer.Driver.Frames.Ledger.{Ledger, blank, filled, came, looked_at, printed, tracked}
use defrizer.Driver.Frames.Rounds.{lines_of}
use defrizer.Driver.Frames.Serving.{Serves, next, idle, loop_goes_on}
use defrizer.Driver.Xsk.{XskView, All, IsXsk}
use defrizer.Driver.Xsk.Sync.{InSync, stay-InSync, idle-InSync, read-InSync, receive-InSync}

module _ {W P S D E : Type 0} (b : SockHelpers W) (h : Host W P S D E) (s : S) (v : XskView W D)
    (xsk : IsXsk b h s v) where
  -- Behind a run beside the ledger, the descriptors `ds` are in hand.
  abbrev InHand : {A : Type 0} → List D → A → W × Ledger D → Type 0
  InHand ds _ (w, l) = InSync b v ds w l

  printf-InSync :
      (x : Line) (ds : List D) (w : W) (l : Ledger D)
      → InSync b v ds w l
      → Ensures (InHand ds) ((tracked h).printf x (w, l))
  unfolding tracked
  printf-InSync x ds w l r =
      noting-Ensures (h.printf x) (λ _ l'. printed x l') w l (xsk.printf_leaves x w)
        λ _ w' (more, left). stay-InSync w w' ds l (printed x l) (frames_same x) r more left
    where
      frames_same : (y : Line) → (printed y l).frames ≡ l.frames
      frames_same waiting = refl
      frames_same (tcp_header t) = refl
      frames_same (tcp_data xs) = refl

  show_layer-InSync :
      (layer : Option TcpLayer) (ds : List D) (w : W) (l : Ledger D)
      → InSync b v ds w l
      → Ensures (InHand ds) (show_layer (tracked h) layer (w, l))
  unfolding show_layer
  show_layer-InSync none ds w l r = ensured r
  show_layer-InSync (some t) ds w l r =
      Ensures-bind _ (printf-InSync (tcp_header t) ds w l r)
        λ _ s1 r1. printf-InSync (tcp_data t.payload) ds (s1.0) (s1.1) r1

  get_frame-InSync :
      (d : D) (ds : List D) (w : W) (l : Ledger D)
      → InSync b v (d ∷ ds) w l
      → Ensures (InHand ds) ((tracked h).get_frame s d (w, l))
  unfolding tracked
  get_frame-InSync d ds w l r =
      noting-Ensures (h.get_frame s d) (looked_at d) w l (xsk.frame_reads d r.before ds w r.mine)
        λ f w' (e, more, left). read-InSync w w' d ds f l e r more left

  show_frames-InSync :
      (ds : List D) (w : W) (l : Ledger D)
      → InSync b v ds w l
      → Ensures (InHand []) (show_frames (tracked h) s ds (w, l))
  unfolding show_frames
  show_frames-InSync [] w l r = ensured r
  show_frames-InSync (d ∷ ds) w l r = Ensures-bind _ (get_frame-InSync d ds w l r) λ f s1 r1.
      Ensures-bind _ (show_layer-InSync ((tracked h).tcp_layer f) ds (s1.0) (s1.1) r1)
        λ _ s2 r2. show_frames-InSync ds (s2.0) (s2.1) r2

  fill_free-InSync :
      (n : ℕ) (w : W) (l : Ledger D)
      → InSync b v [] w l
      → Ensures (InHand []) (fill_free (tracked h) s n (w, l))
  unfolding fill_free tracked
  fill_free-InSync n w l r = elim (Bool-cases (ltb 0 n)) [
    | inl some_free ↦ rw some_free (
        Ensures-bind {Q = InHand []} _
          (noting-Ensures (h.get_descs s n true) (λ _ l'. l') w l (xsk.descs_grows n true w)
            λ ds w' more. idle-InSync w w' l l refl r more)
          λ ds s1 r1.
            Ensures-bind {Q = InHand []} _
              (noting-Ensures (h.fill s ds) filled (s1.0) (s1.1) (xsk.fill_grows ds (s1.0))
                λ k w' more. idle-InSync (s1.0) w' (s1.1) (filled k (s1.1)) refl r1 more)
              λ _ s2 r2. ensured r2)
    | inr none_free ↦ rw none_free (ensured r)
  ]

  show_received-InSync :
      (n : ℕ) (w : W) (l : Ledger D)
      → InSync b v [] w l
      → Ensures (InHand []) (show_received (tracked h) s n (w, l))
  unfolding show_received tracked
  show_received-InSync n w l r = elim (Bool-cases (ltb 0 n)) [
    | inl arrived ↦ rw arrived (
        Ensures-bind {Q = λ ds s1. InHand ds ds s1} _
          (noting-Ensures (h.receive s n) came w l (xsk.receive_takes n w)
            λ ds w' got. receive-InSync w w' ds l r got)
          λ ds s1 r1. show_frames-InSync ds (s1.0) (s1.1) r1)
    | inr nothing ↦ rw nothing (ensured r)
  ]

  received-InSync :
      (polled : E ⊎ (ℕ × ℕ)) (w : W) (l : Ledger D)
      → InSync b v [] w l
      → Ensures (InHand []) (
          either polled
            (λ err. pure (some err))
            (λ r. do show_received (tracked h) s r.0; pure none)
            (w, l))
  received-InSync (inl err) w l r = ensured r
  received-InSync (inr (n, _)) w l r =
      Ensures-bind _ (show_received-InSync n w l r) λ _ s1 r1. ensured r1

  round-InSync :
      (w : W) (l : Ledger D) → InSync b v [] w l → Ensures (InHand []) (round (tracked h) s (w, l))
  unfolding round tracked
  round-InSync w l r =
      Ensures-bind {Q = InHand []} _
        (noting-Ensures (h.num_free_fill_slots s) (λ _ l'. l') w l (xsk.slots_grows w)
          λ n w' more. idle-InSync w w' l l refl r more)
        λ n s1 r1. Ensures-bind {Q = InHand []} _ (fill_free-InSync n (s1.0) (s1.1) r1) λ _ s2 r2.
          Ensures-bind {Q = InHand []} _ (printf-InSync waiting [] (s2.0) (s2.1) r2) λ _ s3 r3.
            Ensures-bind {Q = InHand []} _
              (noting-Ensures (h.poll s minus_one) (λ _ l'. l') (s3.0) (s3.1)
                (xsk.poll_grows minus_one (s3.0))
                λ p w' more. idle-InSync (s3.0) w' (s3.1) (s3.1) refl r3 more)
              λ polled s4 r4. received-InSync polled (s4.0) (s4.1) r4

  Serves-InSync :
      (n : ℕ) (a z : W × Ledger D)
      → Serves (tracked h) s n a z
      → InSync b v [] a.0 a.1
      → InSync b v [] z.0 z.1
  Serves-InSync _ a _ idle r = r
  Serves-InSync _ a z (next {n} {w1} e rest) r =
      Serves-InSync n w1 z rest (Ensures-ends e (round-InSync a.0 a.1 r))

  All-IsWatched :
      (frames rest : List (List ℕ)) → All (Redirected b) (frames ++ rest) → All IsWatched frames
  All-IsWatched [] rest p = tt
  All-IsWatched (f ∷ frames) rest p = (Redirected-IsWatched b f p.0, All-IsWatched frames rest p.1)

  -- On a socket that behaves as `IsXsk` documents, into whose Rx ring come, at any time, frames that
  -- `xdp_sock_prog` answered with XDP_REDIRECT: after any number of rounds of `main`'s loop whose polls
  -- do not fail, the frames that were read are in order the first that came, and the others wait in
  -- the Rx ring; none is lost, none is read twice. What is printed are the lines about the frames that
  -- were read, and each of these is a TCP segment to port 7777.
  pub loop_shows :
      (n : ℕ) (w w' : W)
      → v.delivered w ≡ []
      → v.queue w ≡ []
      → Serves h s n w w'
      → (l : Ledger D) × Serves (tracked h) s n (w, blank) (w', l)
        × (v.delivered w' ≡ l.frames ++ v.queue w')
        × (l.lines ≡ lines_of h.tcp_layer l.frames)
        × All IsWatched l.frames
  loop_shows n w w' none_yet empty serves =
      let (l, beside, read, clean, shown, on) = loop_goes_on h s 0 n w w' serves in
      let begins : InSync b v [] w blank = record {
        order = none_yet ∙ sym empty;
        before = v.owned w;
        mine = sym (append-nil (v.owned w));
        right = rw none_yet tt;
      } in
      let r = Serves-InSync n (w, blank) (w', l) beside begins in
      (l, beside, r.order, shown, All-IsWatched l.frames (v.queue w') (rw (r.order) at (r.right)))
