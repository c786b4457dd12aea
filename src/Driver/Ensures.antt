-- ===== src/Driver/Ensures.antt =====
-- What holds behind a run, if it comes back.
use std.Path.{subst}
use defrizer.Common.{◌≡◌, Option, none, some}
use defrizer.Driver.{deferring, Run, and_then}
use defrizer.Driver.Track.{noting, with_note}

pub data Ensures {W A : Type 0} (Q : A → W → Type 0) : Option (A × W) → Type 0 where
  stuck : Ensures Q none
  ensured : {a : A} {w : W} → Q a w → Ensures Q (some (a, w))

module _ {W A : Type 0} {Q : A → W → Type 0} where
  pub Ensures-ends : {o : Option (A × W)} {a : A} {w : W} → o ≡ some (a, w) → Ensures Q o → Q a w
  Ensures-ends e known = at (subst (Ensures Q) e known)
    where
      at : {b : A} {w' : W} → Ensures Q (some (b, w')) → Q b w'
      at (ensured q) = q

  pub Ensures-map :
      {R : A → W → Type 0} {o : Option (A × W)}
      → Ensures Q o
      → ((a : A) (w : W) → Q a w → R a w)
      → Ensures R o
  Ensures-map stuck wider = stuck
  Ensures-map (ensured q) wider = ensured (wider _ _ q)

module _ {W A B : Type 0} {Q : A → W → Type 0} {R : B → W → Type 0} where
  pub Ensures-bind :
      {m : Option (A × W)} (f : A → Run W B)
      → Ensures Q m
      → ((a : A) (w : W) → Q a w → Ensures R (f a w))
      → Ensures R (and_then m f)
  Ensures-bind f stuck rest = stuck
  Ensures-bind f (ensured q) rest = rest _ _ q

pub anything : {W A : Type 0} (o : Option (A × W)) → Ensures (λ a w. Unit {0}) o
anything none = stuck
anything (some (a, w)) = ensured tt

pub deferring-Ensures :
    {W A B : Type 0} {Q R : A → W → Type 0} (f : Run W B) (body : Run W A) {w : W}
    → Ensures Q (body w)
    → ((a : A) (w' : W) → Q a w' → Ensures (λ b. R a) (f w'))
    → Ensures R (deferring f body w)
unfolding deferring
deferring-Ensures f body done ends =
    Ensures-bind _ done λ a w' q. Ensures-bind _ (ends a w' q) λ b w'' r. ensured r

-- A run that keeps a ledger.
module _ {W L A : Type 0} {Q : A → W → Type 0} {R : A → W × L → Type 0} where
  pub noting-Ensures :
      (m : Run W A) (f : A → L → L) (w : W) (l : L)
      → Ensures Q (m w)
      → ((a : A) (w' : W) → Q a w' → R a (w', f a l))
      → Ensures R (noting m f (w, l))
  noting-Ensures m f w l known keeps = at known
    where
      at : {o : Option (A × W)} → Ensures Q o → Ensures R (with_note f l o)
      at stuck = stuck
      at (ensured q) = ensured (keeps _ _ q)
