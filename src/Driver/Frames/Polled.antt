-- ===== src/Driver/Frames/Polled.antt =====
-- The loop that `main` of dumpframes/src/dumpframes.go has run through where it ends at a failed poll.
use Prim.Native.String.{String}
use defrizer.Common.{
  ℕ, zero, suc, ◌≡◌, refl, ◌⊎◌, inl, inr, List, Option, none, some, ℤ, pos, negsuc,
}
use defrizer.Driver.{
  pure, either, checked, deferring, NetInterface, find_ifindex, Exit, poll_failed, program_failed,
  attach_failed, socket_failed, interfaces_failed,
}
use defrizer.Driver.Ensures.{
  Ensures, stuck, ensured, Ensures-bind, Ensures-map, deferring-Ensures, anything,
}
use defrizer.Driver.Frames.{
  Host, round, rounds, serve, open_socket, attach_and_serve, load_and_serve, with_interface, main,
}
use defrizer.Driver.Frames.Serving.{Serves, next, idle}

-- To split on how a call that may fail ends.
failing-cases :
    {W E : Type 0} (o : Option (Option E × W))
    → (o ≡ none)
      ⊎ (((w : W) × (o ≡ some (none, w))) ⊎ ((err : E) × (w : W) × (o ≡ some (some err, w))))
failing-cases none = inl refl
failing-cases (some (none, w)) = inr (inl (w, refl))
failing-cases (some (some err, w)) = inr (inr (err, w, refl))

module _ {W P S D E : Type 0} (h : Host W P S D E) where
  -- From `w` the loop ends with `exit` because a poll fails in the round behind `n` others.
  pub data Polled (s : S) (w : W) : Exit E → Type 0 where
    polled :
        (n : ℕ) (w2 w3 : W) {err : E}
        → Serves h s n w w2
        → round h s w2 ≡ some (some err, w3)
        → Polled s w (poll_failed err)

  pub Polled-ends :
      {s : S} {w : W} {err : E}
      → Polled s w (poll_failed err)
      → (n : ℕ) × (w2 : W) × (w3 : W) × Serves h s n w w2 × (round h s w2 ≡ some (some err, w3))
  Polled-ends (polled n w2 w3 serves failed) = (n, w2, w3, serves, failed)

  later :
      {s : S} {w w1 : W} {exit : Exit E}
      → round h s w ≡ some (none, w1)
      → Polled s w1 exit
      → Polled s w exit
  later e (polled n w2 w3 serves failed) = polled (suc n) w2 w3 (next e serves) failed

  rounds-Polled :
      (fuel : ℕ) (s : S) (w : W) → Ensures (λ exit _. Polled s w exit) (rounds h fuel s w)
  unfolding rounds
  rounds-Polled zero s w = stuck
  rounds-Polled (suc fuel) s w = elim (failing-cases (round h s w)) [
    | inl e ↦ rw e stuck
    | inr (inl (w1, e)) ↦ rw e (Ensures-map (rounds-Polled fuel s w1) λ exit w' more. later e more)
    | inr (inr (err, w1, e)) ↦ rw e (ensured (polled 0 w w1 idle e))
  ]

  -- With a failed poll at the end, the loop ran on a socket that `Register` took for the queue.
  pub record Registered (p : P) (q : ℕ) (exit : Exit E) : Type 0 where
    pub s : S
    pub before : W
    pub start : W
    pub taken : h.register p q (h.fd s) before ≡ some (none, start)
    pub loop : Polled s start exit

  abbrev pub IfPolled : (P → Type 0) → ℕ → Exit E → Type 0
  IfPolled Is q exit = (err : E) → exit ≡ poll_failed err → (p : P) × Is p × Registered p q exit

  serve-IfPolled :
      (Is : P → Type 0) (fuel : ℕ) (p : P) (q : ℕ) (s : S) (w : W)
      → Is p
      → Ensures (λ exit _. IfPolled Is q exit) (serve h fuel p q s w)
  unfolding serve
  serve-IfPolled Is fuel p q s w is = elim (failing-cases (h.register p q (h.fd s) w)) [
    | inl e ↦ rw e stuck
    | inr (inl (w1, e)) ↦ rw e (
        deferring-Ensures (h.unregister p q) (rounds h fuel s) (rounds-Polled fuel s w1)
          λ exit w2 loop. Ensures-map (anything (h.unregister p q w2)) λ _ w3 _ err _.
            (p, is, record { s = s; before = w; start = w1; taken = e; loop = loop }))
    | inr (inr (err, w1, e)) ↦ rw e (ensured (λ err' other. cc other))
  ]

  open_socket-IfPolled :
      (Is : P → Type 0) (fuel : ℕ) (p : P) (i q : ℕ) (w : W)
      → Is p
      → Ensures (λ exit _. IfPolled Is q exit) (open_socket h fuel p i q w)
  unfolding open_socket
  open_socket-IfPolled Is fuel p i q w is = Ensures-bind _ (anything (h.new_socket i q w)) behind
    where
      behind :
          (r : E ⊎ S) (w1 : W)
          → Unit {0}
          → Ensures
              (λ exit _. IfPolled Is q exit)
              (either r (λ err. pure (socket_failed err)) (serve h fuel p q) w1)
      behind (inl err) w1 _ = ensured (λ err' other. cc other)
      behind (inr s) w1 _ = serve-IfPolled Is fuel p q s w1 is

  attach_and_serve-IfPolled :
      (Is : P → Type 0) (fuel : ℕ) (p : P) (i q : ℕ) (w : W)
      → Is p
      → Ensures (λ exit _. IfPolled Is q exit) (attach_and_serve h fuel p i q w)
  unfolding attach_and_serve
  attach_and_serve-IfPolled Is fuel p i q w is = Ensures-bind _ (anything (h.attach p i w)) behind
    where
      behind :
          (r : Option E) (w1 : W)
          → Unit {0}
          → Ensures
              (λ exit _. IfPolled Is q exit)
              (checked r
                (λ err. pure (attach_failed err))
                (deferring (h.detach p i) (open_socket h fuel p i q))
                w1)
      behind (some err) w1 _ = ensured (λ err' other. cc other)
      behind none w1 _ =
          deferring-Ensures (h.detach p i) (open_socket h fuel p i q)
            (open_socket-IfPolled Is fuel p i q w1 is)
            λ exit w2 known. Ensures-map (anything (h.detach p i w2)) λ _ w3 _. known

  with_interface-IfPolled :
      (Is : P → Type 0) (fuel : ℕ) (i : ℤ) (q : ℕ) (w : W)
      → ((w0 w1 : W) (p : P) → h.new_program w0 ≡ some (inr p, w1) → Is p)
      → Ensures (λ exit _. IfPolled Is q exit) (with_interface h fuel i q w)
  unfolding with_interface load_and_serve
  with_interface-IfPolled Is fuel (negsuc _) q w loads = ensured (λ err other. cc other)
  with_interface-IfPolled Is fuel (pos i) q w loads =
      Ensures-bind _ (from (h.new_program w) (loads w)) behind
    where
      from :
          (o : Option ((E ⊎ P) × W))
          → ((w1 : W) (p : P) → o ≡ some (inr p, w1) → Is p)
          → Ensures (λ r _. (p : P) → r ≡ inr p → Is p) o
      from none loads' = stuck
      from (some (r, w1)) loads' = ensured (λ p e. loads' w1 p (rw e refl))

      behind :
          (r : E ⊎ P) (w1 : W)
          → ((p : P) → r ≡ inr p → Is p)
          → Ensures
              (λ exit _. IfPolled Is q exit)
              (either r
                (λ err. pure (program_failed err))
                (λ p. deferring (h.close p) (attach_and_serve h fuel p i q))
                w1)
      behind (inl err) w1 _ = ensured (λ err' other. cc other)
      behind (inr p) w1 is =
          deferring-Ensures (h.close p) (attach_and_serve h fuel p i q)
            (attach_and_serve-IfPolled Is fuel p i q w1 (is p refl))
            λ exit w2 known. Ensures-map (anything (h.close p w2)) λ _ w3 _. known

  pub main-IfPolled :
      (Is : P → Type 0) (fuel : ℕ) (name : String) (q : ℕ) (w : W)
      → ((w0 w1 : W) (p : P) → h.new_program w0 ≡ some (inr p, w1) → Is p)
      → Ensures (λ exit _. IfPolled Is q exit) (main h fuel name q w)
  unfolding main
  main-IfPolled Is fuel name q w loads = Ensures-bind _ (anything (h.interfaces w)) behind
    where
      behind :
          (r : E ⊎ List NetInterface) (w1 : W)
          → Unit {0}
          → Ensures
              (λ exit _. IfPolled Is q exit)
              (either r
                (λ err. pure (interfaces_failed err))
                (λ list. with_interface h fuel (find_ifindex name list) q)
                w1)
      behind (inl err) w1 _ = ensured (λ err' other. cc other)
      behind (inr list) w1 _ = with_interface-IfPolled Is fuel (find_ifindex name list) q w1 loads
