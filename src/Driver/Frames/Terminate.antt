-- ===== src/Driver/Frames/Terminate.antt =====
-- `main` of dumpframes/src/dumpframes.go comes back once a poll fails.
use Prim.Native.String.{String}
use defrizer.Common.{
  ℕ, zero, suc, ◌≤◌, ◌<◌, ◌≡◌, arith, ◌⊎◌, inl, inr, List, [], ◌∷◌, true, Option, none, some, ltb,
  Bool-cases, ℤ, pos, negsuc, minus_one,
}
use defrizer.Driver.{pure, ◌>>◌, either, find_ifindex, Exit}
use defrizer.Driver.Returns.{
  Returns, returns, Returns-bind, Returns-result, deferring-Returns, Whatever, Answered, Within,
  keep, done, checked-Returns, either-Returns, decided-Returns, Loads,
}
use defrizer.Driver.Frames.{
  Host, waiting, tcp_header, tcp_data, TcpLayer, show_layer, show_frames, fill_free, show_received,
  round, rounds, serve, open_socket, attach_and_serve, load_and_serve, with_interface, main,
}
use defrizer.Driver.Frames.Settling.{Settling}

module _ {W P S D E : Type 0} (h : Host W P S D E) (left : W → ℕ) (ready : P → Type 0)
    (settling : Settling h left ready) where
  show_layer-Returns :
      (layer : Option TcpLayer) (n : ℕ) (w : W)
      → left w ≤ n
      → Returns (Within left n) (show_layer h layer w)
  unfolding show_layer
  show_layer-Returns none n w few = returns few
  show_layer-Returns (some t) n w few =
      Returns-bind _ (keep left n w few (settling.printf_back (tcp_header t) w))
        λ _ w1 few1. keep left n w1 few1 (settling.printf_back (tcp_data t.payload) w1)

  show_frames-Returns :
      (s : S) (ds : List D) (n : ℕ) (w : W)
      → left w ≤ n
      → Returns (Within left n) (show_frames h s ds w)
  unfolding show_frames
  show_frames-Returns s [] n w few = returns few
  show_frames-Returns s (d ∷ ds) n w few =
      Returns-bind _ (keep left n w few (settling.frame_back s d w)) λ f w1 few1.
        Returns-bind _ (show_layer-Returns (h.tcp_layer f) n w1 few1)
          λ _ w2 few2. show_frames-Returns s ds n w2 few2

  fill_free-Returns :
      (s : S) (k n : ℕ) (w : W) → left w ≤ n → Returns (Within left n) (fill_free h s k w)
  unfolding fill_free
  fill_free-Returns s k n w few = elim (Bool-cases (ltb 0 k)) [
    | inl some_free ↦ rw (some_free) (
        Returns-bind _ (keep left n w few (settling.descs_back s k true w)) λ ds w1 few1.
          Returns-bind _ (keep left n w1 few1 (settling.fill_back s ds w1))
            λ _ w2 few2. returns few2)
    | inr none_free ↦ rw (none_free) (returns few)
  ]

  show_received-Returns :
      (s : S) (k n : ℕ) (w : W) → left w ≤ n → Returns (Within left n) (show_received h s k w)
  unfolding show_received
  show_received-Returns s k n w few = elim (Bool-cases (ltb 0 k)) [
    | inl arrived ↦ rw (arrived) (
        Returns-bind _ (keep left n w few (settling.receive_back s k w))
          λ ds w1 few1. show_frames-Returns s ds n w1 few1)
    | inr nothing ↦ rw (nothing) (returns few)
  ]

  -- A round whose poll does not fail uses one up.
  abbrev Rounded : ℕ → Option E → W → Type 0
  Rounded n (some err) w' = Unit {0}
  Rounded n none w' = left w' < n

  received-Returns :
      (s : S) (n : ℕ) (polled : E ⊎ (ℕ × ℕ)) (w w' : W)
      → left w ≤ n
      → Answered left w polled w'
      → Returns
          (Rounded n)
          (either polled (λ err. pure (some err)) (λ r. do show_received h s r.0; pure none) w')
  received-Returns s n (inl err) w w' few used = returns tt
  received-Returns s n (inr r) w w' few used =
      Returns-bind _ (show_received-Returns s (r.0) (left w') w' (omega arith))
        λ _ w2 k. returns (omega (arith, few, used, k))

  round-Returns : (s : S) (n : ℕ) (w : W) → left w ≤ n → Returns (Rounded n) (round h s w)
  unfolding round
  round-Returns s n w few =
      Returns-bind _ (keep left n w few (settling.slots_back s w)) λ k w1 few1.
        Returns-bind _ (fill_free-Returns s k n w1 few1) λ _ w2 few2.
          Returns-bind _ (keep left n w2 few2 (settling.printf_back waiting w2)) λ _ w3 few3.
            Returns-bind _ (settling.poll_back s minus_one w3)
              λ polled w4 used. received-Returns s n polled w3 w4 few3 used

  rounds-Returns : (fuel : ℕ) (s : S) (w : W) → left w < fuel → Returns Whatever (rounds h fuel s w)
  unfolding rounds
  rounds-Returns zero s w few = absurd (omega (arith, few))
  rounds-Returns (suc fuel) s w few =
      Returns-bind _ (round-Returns s fuel w (omega (arith, few))) λ ended w1 k.
        checked-Returns (Rounded fuel) _ _ ended w1 k (λ err. returns tt)
          (λ k'. rounds-Returns fuel s w1 k')

  serve-Returns :
      (n : ℕ) (p : P) (q : ℕ) (s : S) (w : W)
      → ready p
      → left w ≤ n
      → Returns Whatever (serve h (suc n) p q s w)
  unfolding serve
  serve-Returns n p q s w good few =
      Returns-bind _ (keep left n w few (settling.register_back p good q (h.fd s) w))
        λ failure w1 few1.
          checked-Returns (Within left n) _ _ failure w1 few1 (λ err. returns tt)
            (λ few2.
              deferring-Returns _ _ w1 (rounds-Returns (suc n) s w1 (omega (arith, few2)))
                (λ w2. done left w2 (settling.unregister_back p good q w2)))

  open_socket-Returns :
      (n : ℕ) (p : P) (i q : ℕ) (w : W)
      → ready p
      → left w ≤ n
      → Returns Whatever (open_socket h (suc n) p i q w)
  unfolding open_socket
  open_socket-Returns n p i q w good few =
      Returns-bind _ (keep left n w few (settling.new_socket_back i q w)) λ opened w1 few1.
        either-Returns _ _ opened w1 (λ err. returns tt) (λ s. serve-Returns n p q s w1 good few1)

  attach_and_serve-Returns :
      (n : ℕ) (p : P) (i q : ℕ) (w : W)
      → ready p
      → left w ≤ n
      → Returns Whatever (attach_and_serve h (suc n) p i q w)
  unfolding attach_and_serve
  attach_and_serve-Returns n p i q w good few =
      Returns-bind _ (keep left n w few (settling.attach_back p good i w)) λ failure w1 few1.
        checked-Returns (Within left n) _ _ failure w1 few1 (λ err. returns tt)
          (λ few2.
            deferring-Returns _ _ w1 (open_socket-Returns n p i q w1 good few2)
              (λ w2. done left w2 (settling.detach_back p i w2)))

  with_interface-Returns :
      (n : ℕ) (i : ℤ) (q : ℕ) (w : W)
      → left w ≤ n
      → Returns Whatever (with_interface h (suc n) i q w)
  unfolding with_interface load_and_serve
  with_interface-Returns n (negsuc _) q w few = returns tt
  with_interface-Returns n (pos i) q w few =
      Returns-bind _ (settling.new_program_back w) λ loaded w1 loads.
        decided-Returns (Loads left ready w) _ _ loaded w1 loads (λ err _. returns tt)
          (λ p (kept, good).
            deferring-Returns _ _ w1
              (attach_and_serve-Returns n p i q w1 good (omega (arith, few, kept)))
              (λ w2. done left w2 (settling.close_back p w2)))

  -- When all calls come back, `Attach`, `Register` and `Unregister` at least on programs as they are
  -- loaded, and from the state `w` on at most `left w` polls do not fail, `main` returns: one round
  -- more than these is enough.
  pub main_returns :
      (name : String) (q : ℕ) (w : W)
      → (exit : Exit E) × (w' : W) × (main h (suc (left w)) name q w ≡ some (exit, w'))
  unfolding main
  main_returns name q w =
      let back =
        Returns-bind _ (keep left (left w) w (omega arith) (settling.interfaces_back w))
          λ found w1 few1.
            either-Returns {R = Whatever} _ _ found w1 (λ err. returns tt)
              (λ list. with_interface-Returns (left w) (find_ifindex name list) q w1 few1) in
      let r = Returns-result back in (r.0, r.1, r.2)
