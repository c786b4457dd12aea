-- ===== src/Driver/Events/Terminate.antt =====
-- `main` of perf_event/src/dumpframes.go comes back once a read fails.
use Prim.Native.String.{String}
use defrizer.Common.{ℕ, zero, suc, ◌≤◌, ◌<◌, ◌≡◌, arith, List, some, ℤ, pos, negsuc}
use defrizer.Driver.{Exit, find_ifindex}
use defrizer.Driver.Returns.{
  Returns, returns, Returns-bind, Returns-result, deferring-Returns, Whatever, Kept, Within, keep,
  done, Answered, checked-Returns, either-Returns, decided-Returns, Loads,
}
use defrizer.Driver.Events.{Host, samples, open_reader, attach_and_read, with_interface, main}

-- Calls that all come back, those that need the handles of a program on one that is `ready`; `left`
-- bounds the reads that will not fail.
pub record Draining {W P R E : Type 0} (h : Host W P R E) (left : W → ℕ) (ready : P → Type 0)
    : Type 0 where
  pub memlock_back : (w : W) → Returns (Kept left w) (h.remove_memlock w)
  pub interfaces_back : (w : W) → Returns (Kept left w) (h.interfaces w)
  pub new_program_back : (w : W) → Returns (Loads left ready w) (h.new_program w)
  pub close_back : (p : P) (w : W) → Returns (Kept left w) (h.close p w)
  pub attach_back : (p : P) → ready p → (i : ℕ) (w : W) → Returns (Kept left w) (h.attach p i w)
  pub detach_back : (p : P) (i : ℕ) (w : W) → Returns (Kept left w) (h.detach p i w)
  pub new_reader_back : (p : P) → ready p → (w : W) → Returns (Kept left w) (h.new_reader p w)
  pub close_reader_back : (rd : R) (w : W) → Returns (Kept left w) (h.close_reader rd w)
  pub read_back : (rd : R) (w : W) → Returns (Answered left w) (h.read rd w)
  pub println_back : (sample : List ℕ) (w : W) → Returns (Kept left w) (h.println sample w)

module _ {W P R E : Type 0} (h : Host W P R E) (left : W → ℕ) (ready : P → Type 0)
    (draining : Draining h left ready) where
  samples-Returns :
      (fuel : ℕ) (rd : R) (w : W) → left w < fuel → Returns Whatever (samples h fuel rd w)
  unfolding samples
  samples-Returns zero rd w few = absurd (omega (arith, few))
  samples-Returns (suc fuel) rd w few = Returns-bind _ (draining.read_back rd w) λ got w1 used.
      decided-Returns (Answered left w) _ _ got w1 used (λ err _. returns tt)
        (λ sample fewer.
          Returns-bind _ (draining.println_back sample w1)
            λ _ w2 k. samples-Returns fuel rd w2 (omega (arith, few, fewer, k)))

  open_reader-Returns :
      (n : ℕ) (p : P) (w : W) → ready p → left w ≤ n → Returns Whatever (open_reader h (suc n) p w)
  unfolding open_reader
  open_reader-Returns n p w good few =
      Returns-bind _ (keep left n w few (draining.new_reader_back p good w)) λ opened w1 few1.
        either-Returns _ _ opened w1 (λ err. returns tt)
          (λ rd.
            deferring-Returns _ _ w1 (samples-Returns (suc n) rd w1 (omega (arith, few1)))
              (λ w2. done left w2 (draining.close_reader_back rd w2)))

  attach_and_read-Returns :
      (n : ℕ) (p : P) (i : ℕ) (w : W)
      → ready p
      → left w ≤ n
      → Returns Whatever (attach_and_read h (suc n) p i w)
  unfolding attach_and_read
  attach_and_read-Returns n p i w good few =
      Returns-bind _ (keep left n w few (draining.attach_back p good i w)) λ failure w1 few1.
        checked-Returns (Within left n) _ _ failure w1 few1 (λ err. returns tt)
          (λ few2.
            deferring-Returns _ _ w1 (open_reader-Returns n p w1 good few2)
              (λ w2. done left w2 (draining.detach_back p i w2)))

  with_interface-Returns :
      (n : ℕ) (i : ℤ) (w : W) → left w ≤ n → Returns Whatever (with_interface h (suc n) i w)
  unfolding with_interface
  with_interface-Returns n (negsuc _) w few = returns tt
  with_interface-Returns n (pos i) w few =
      Returns-bind _ (draining.new_program_back w) λ loaded w1 loads.
        decided-Returns (Loads left ready w) _ _ loaded w1 loads (λ err _. returns tt)
          (λ p (kept, good).
            deferring-Returns _ _ w1
              (attach_and_read-Returns n p i w1 good (omega (arith, few, kept)))
              (λ w2. done left w2 (draining.close_back p w2)))

  -- When all calls come back, `Attach` and `NewReader` at least on programs as they are loaded, and from
  -- the state `w` on at most `left w` reads of the ring buffer do not fail, `main` of
  -- perf_event/src/dumpframes.go ends: one read more than these is enough.
  pub event_main_ends :
      (name : String) (w : W)
      → (exit : Exit E) × (w' : W) × (main h (suc (left w)) name w ≡ some (exit, w'))
  unfolding main
  event_main_ends name w =
      let back =
        Returns-bind _ (keep left (left w) w (omega arith) (draining.memlock_back w))
          λ refused w0 few0.
            checked-Returns {R = Whatever} (Within left (left w)) _ _ refused w0 few0
              (λ err. returns tt)
              (λ few1.
                Returns-bind _ (keep left (left w) w0 few1 (draining.interfaces_back w0))
                  λ found w1 few2.
                    either-Returns {R = Whatever} _ _ found w1 (λ err. returns tt)
                      (λ list. with_interface-Returns (left w) (find_ifindex name list) w1 few2)) in
      let r = Returns-result back in (r.0, r.1, r.2)
