-- ===== src/Driver/Track.antt =====
-- A run beside one that keeps a ledger of its calls.
use defrizer.Common.{◌≡◌, refl, ◌⊎◌, inl, inr, Option, none, some}
use defrizer.Driver.{Run, and_then, deferring, checked, either}

-- A call that also changes the ledger, by what it returned.
abbrev pub with_note : {W L A : Type 0} → (A → L → L) → L → Option (A × W) → Option (A × (W × L))
with_note f l none = none
with_note f l (some (a, w)) = some (a, (w, f a l))

abbrev pub noting : {W L A : Type 0} → Run W A → (A → L → L) → Run (W × L) A
noting m f (w, l) = with_note f l (m w)

-- Of two runs, the first with a ledger: neither comes back, or both do with the same result and the
-- same state, and the ledger as `Q` says.
pub data Tracks {W L A : Type 0} (Q : A → L → Type 0)
    : Option (A × (W × L)) → Option (A × W) → Type 0 where
  stuck : Tracks Q none none
  comes_back : {a : A} {w : W} {l : L} → Q a l → Tracks Q (some (a, (w, l))) (some (a, w))

module _ {W L A B : Type 0} {Q : A → L → Type 0} {R : B → L → Type 0} where
  pub Tracks-bind :
      {m : Option (A × (W × L))} {n : Option (A × W)} (f : A → Run (W × L) B) (g : A → Run W B)
      → Tracks Q m n
      → ((a : A) (w : W) (l : L) → Q a l → Tracks R (f a (w, l)) (g a w))
      → Tracks R (and_then m f) (and_then n g)
  Tracks-bind f g stuck rest = stuck
  Tracks-bind f g (comes_back q) rest = rest _ _ _ q

module _ {W L A : Type 0} {Q : A → L → Type 0} where
  pub noting-Tracks :
      (m : Run W A) (f : A → L → L) (w : W) (l : L)
      → ((a : A) → Q a (f a l))
      → Tracks Q (noting m f (w, l)) (m w)
  noting-Tracks m f w l keeps = at (m w)
    where
      at : (o : Option (A × W)) → Tracks Q (with_note f l o) o
      at none = stuck
      at (some (a, w')) = comes_back (keeps a)

  pub Tracks-ends :
      {o : Option (A × (W × L))} {a : A} {w : W}
      → Tracks Q o (some (a, w))
      → (l : L) × (o ≡ some (a, (w, l))) × Q a l
  Tracks-ends (comes_back q) = (_, refl, q)

module _ {W L A B : Type 0} {Q R : A → L → Type 0} where
  pub deferring-Tracks :
      (f : Run (W × L) B) (g : Run W B) (body : Run (W × L) A) (plain : Run W A) (w : W) (l : L)
      → Tracks Q (body (w, l)) (plain w)
      → ((a : A) (w' : W) (l' : L) → Q a l' → Tracks (λ _. R a) (f (w', l')) (g w'))
      → Tracks R (deferring f body (w, l)) (deferring g plain w)
  unfolding deferring
  deferring-Tracks f g body plain w l ran release =
      Tracks-bind _ _ ran
        λ a w' l' q. Tracks-bind _ _ (release a w' l' q) λ b w'' l'' r. comes_back r

-- What holds of the ledger behind a call that gave an error or none.
abbrev pub Split : {L E : Type 0} → (L → Type 0) → (L → Type 0) → Option E → L → Type 0
Split fine wrong none l = fine l
Split fine wrong (some err) l = wrong l

pub Split-same :
    {L E : Type 0} (fine : L → Type 0) (o : Option E) (l : L) → fine l → Split fine fine o l
Split-same fine none l holds = holds
Split-same fine (some err) l holds = holds

module _ {W L A E : Type 0} {R : A → L → Type 0} (fine wrong : L → Type 0) where
  pub checked-Tracks :
      (fail : E → Run (W × L) A) (fail' : E → Run W A) (go : Run (W × L) A) (go' : Run W A)
      (o : Option E) (w : W) (l : L)
      → Split fine wrong o l
      → ((err : E) → wrong l → Tracks R (fail err (w, l)) (fail' err w))
      → (fine l → Tracks R (go (w, l)) (go' w))
      → Tracks R (checked o fail go (w, l)) (checked o fail' go' w)
  checked-Tracks fail fail' go go' none w l s bad good = good s
  checked-Tracks fail fail' go go' (some err) w l s bad good = bad err s

module _ {W L A B E : Type 0} {R : B → L → Type 0} (Q : E ⊎ A → L → Type 0) where
  pub either-Tracks :
      (fail : E → Run (W × L) B) (fail' : E → Run W B) (go : A → Run (W × L) B) (go' : A → Run W B)
      (x : E ⊎ A) (w : W) (l : L)
      → Q x l
      → ((err : E) → Q (inl err) l → Tracks R (fail err (w, l)) (fail' err w))
      → ((a : A) → Q (inr a) l → Tracks R (go a (w, l)) (go' a w))
      → Tracks R (either x fail go (w, l)) (either x fail' go' w)
  either-Tracks fail fail' go go' (inl err) w l q bad good = bad err q
  either-Tracks fail fail' go go' (inr a) w l q bad good = good a q
