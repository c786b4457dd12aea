-- ===== src/Driver/Returns.antt =====
-- Runs that come back.
use defrizer.Common.{ℕ, ◌≤◌, ◌<◌, ◌≡◌, refl, arith, ◌⊎◌, inl, inr, Option, none, some}
use defrizer.Driver.Track.{noting, with_note}
use defrizer.Driver.{Run, and_then, deferring, checked, either}

-- A run comes back, with a result and a state as `Q` says.
pub data Returns {W A : Type 0} (Q : A → W → Type 0) : Option (A × W) → Type 0 where
  returns : {a : A} {w : W} → Q a w → Returns Q (some (a, w))

module _ {W A : Type 0} {Q : A → W → Type 0} where
  pub Returns-result :
      {o : Option (A × W)} → Returns Q o → (a : A) × (w : W) × (o ≡ some (a, w)) × Q a w
  Returns-result (returns q) = (_, _, refl, q)

module _ {W A B : Type 0} {Q : A → W → Type 0} {R : B → W → Type 0} where
  pub Returns-bind :
      {m : Option (A × W)} (f : A → Run W B)
      → Returns Q m
      → ((a : A) (w : W) → Q a w → Returns R (f a w))
      → Returns R (and_then m f)
  Returns-bind f (returns q) rest = rest _ _ q

module _ {W A : Type 0} {Q R : A → W → Type 0} where
  pub Returns-map :
      {o : Option (A × W)} → Returns Q o → ((a : A) (w : W) → Q a w → R a w) → Returns R o
  Returns-map (returns q) wider = returns (wider _ _ q)

abbrev pub Whatever : {W A : Type 0} → A → W → Type 0
Whatever _ _ = Unit {0}

module _ {W A B : Type 0} where
  pub deferring-Returns :
      (f : Run W B) (body : Run W A) (w : W)
      → Returns Whatever (body w)
      → ((w' : W) → Returns Whatever (f w'))
      → Returns Whatever (deferring f body w)
  unfolding deferring
  deferring-Returns f body w ran release =
      Returns-bind _ ran λ a w' _. Returns-bind _ (release w') λ b w'' _. returns tt

module _ {W A E : Type 0} {R : A → W → Type 0} (Q : Option E → W → Type 0) where
  pub checked-Returns :
      (fail : E → Run W A) (go : Run W A) (o : Option E) (w : W)
      → Q o w
      → ((err : E) → Returns R (fail err w))
      → (Q none w → Returns R (go w))
      → Returns R (checked o fail go w)
  checked-Returns fail go none w q bad good = good q
  checked-Returns fail go (some err) w q bad good = bad err

module _ {W A B E : Type 0} {R : B → W → Type 0} where
  pub either-Returns :
      (fail : E → Run W B) (go : A → Run W B) (x : E ⊎ A) (w : W)
      → ((err : E) → Returns R (fail err w))
      → ((a : A) → Returns R (go a w))
      → Returns R (either x fail go w)
  either-Returns fail go (inl err) w bad good = bad err
  either-Returns fail go (inr a) w bad good = good a

module _ {W A B E : Type 0} {R : B → W → Type 0} (Q : E ⊎ A → W → Type 0) where
  pub decided-Returns :
      (fail : E → Run W B) (go : A → Run W B) (x : E ⊎ A) (w : W)
      → Q x w
      → ((err : E) → Q (inl err) w → Returns R (fail err w))
      → ((a : A) → Q (inr a) w → Returns R (go a w))
      → Returns R (either x fail go w)
  decided-Returns fail go (inl err) w q bad good = bad err q
  decided-Returns fail go (inr a) w q bad good = good a q

-- A call does not raise the bound `left`, and one that gives a value lowers it.
abbrev pub Kept : {W A : Type 0} → (W → ℕ) → W → A → W → Type 0
Kept left w _ w' = left w' ≤ left w

abbrev pub Answered : {W E A : Type 0} → (W → ℕ) → W → E ⊎ A → W → Type 0
Answered left w (inl err) w' = left w' ≤ left w
Answered left w (inr a) w' = left w' < left w

-- A call that loads a program raises no bound, and the program is `ready`.
abbrev pub Loads : {W P E : Type 0} → (W → ℕ) → (P → Type 0) → W → E ⊎ P → W → Type 0
Loads left ready w (inl err) w' = left w' ≤ left w
Loads left ready w (inr p) w' = (left w' ≤ left w) × ready p

module _ {W A : Type 0} (left : W → ℕ) where
  abbrev pub Within : ℕ → A → W → Type 0
  Within n _ w = left w ≤ n

  pub keep :
      {o : Option (A × W)} (n : ℕ) (w : W)
      → left w ≤ n
      → Returns (Kept left w) o
      → Returns (Within n) o
  keep n w few back = Returns-map back λ _ w' k. omega (arith, few, k)

  pub done : {o : Option (A × W)} (w : W) → Returns (Kept left w) o → Returns Whatever o
  done w back = Returns-map back λ _ _ _. tt

module _ {W L A : Type 0} {Q : A → W → Type 0} {R : A → W × L → Type 0} where
  pub noting-Returns :
      (m : Run W A) (f : A → L → L) (w : W) (l : L)
      → Returns Q (m w)
      → ((a : A) (w' : W) → Q a w' → R a (w', f a l))
      → Returns R (noting m f (w, l))
  noting-Returns m f w l back keeps = at back
    where
      at : {o : Option (A × W)} → Returns Q o → Returns R (with_note f l o)
      at (returns q) = returns (keeps _ _ q)
