-- ===== src/Driver/Frames/Settling.antt =====
-- Calls that all come back, with a poll that fails at last.
use defrizer.Common.{ℕ, List, Bool, ℤ}
use defrizer.Driver.Returns.{Returns, Kept, Answered, Loads}
use defrizer.Driver.Frames.{Host, Line}

-- `left` bounds the polls that will not fail. The methods that need the handles of a program come back
-- on one that is `ready`.
pub record Settling {W P S D E : Type 0} (h : Host W P S D E) (left : W → ℕ) (ready : P → Type 0)
    : Type 0 where
  pub interfaces_back : (w : W) → Returns (Kept left w) (h.interfaces w)
  pub new_program_back : (w : W) → Returns (Loads left ready w) (h.new_program w)
  pub close_back : (p : P) (w : W) → Returns (Kept left w) (h.close p w)
  pub attach_back : (p : P) → ready p → (i : ℕ) (w : W) → Returns (Kept left w) (h.attach p i w)
  pub detach_back : (p : P) (i : ℕ) (w : W) → Returns (Kept left w) (h.detach p i w)
  pub new_socket_back : (i q : ℕ) (w : W) → Returns (Kept left w) (h.new_socket i q w)
  pub register_back :
      (p : P) → ready p → (q fd : ℕ) (w : W) → Returns (Kept left w) (h.register p q fd w)
  pub unregister_back :
      (p : P) → ready p → (q : ℕ) (w : W) → Returns (Kept left w) (h.unregister p q w)
  pub slots_back : (s : S) (w : W) → Returns (Kept left w) (h.num_free_fill_slots s w)
  pub descs_back : (s : S) (n : ℕ) (b : Bool) (w : W) → Returns (Kept left w) (h.get_descs s n b w)
  pub fill_back : (s : S) (ds : List D) (w : W) → Returns (Kept left w) (h.fill s ds w)
  pub poll_back : (s : S) (t : ℤ) (w : W) → Returns (Answered left w) (h.poll s t w)
  pub receive_back : (s : S) (n : ℕ) (w : W) → Returns (Kept left w) (h.receive s n w)
  pub frame_back : (s : S) (d : D) (w : W) → Returns (Kept left w) (h.get_frame s d w)
  pub printf_back : (x : Line) (w : W) → Returns (Kept left w) (h.printf x w)
