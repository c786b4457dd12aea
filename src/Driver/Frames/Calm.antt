-- ===== src/Driver/Frames/Calm.antt =====
-- The ledger of `main` of dumpframes/src/dumpframes.go where all is read and printed.
use defrizer.Common.{ℕ, ◌+◌, refl, ap, ◌∙◌, ◌⊎◌, inl, inr, List, [], ◌∷◌, Option, none, some}
use defrizer.Driver.{Exit, register_failed, poll_failed}
use defrizer.Driver.Held.{Resource, program, take_up, give_back, give_back-take_up}
use defrizer.Driver.Track.{Split}
use defrizer.Driver.Frames.{TcpLayer}
use defrizer.Driver.Frames.Ledger.{Ledger, taken, loaded, opened}
use defrizer.Driver.Frames.Rounds.{Reading}

-- All is read and printed, this is to be released, and `n` sockets were opened.
abbrev pub Calm : {D : Type 0} → (List ℕ → Option TcpLayer) → List Resource → ℕ → Ledger D → Type 0
Calm g rs n l = Reading g (some rs, n) [] [] l

-- The sockets that are open at the end: one, if `main` came as far as `Register`.
unfoldable pub left_open : {E : Type 0} → Exit E → ℕ
left_open (register_failed err) = 1
left_open (poll_failed err) = 1
left_open _ = 0

module _ {D : Type 0} {g : List ℕ → Option TcpLayer} {rs : List Resource} {n : ℕ}
    (l : Ledger D) where
  taken-Calm :
      (r : Resource) → Calm g rs n l → Calm g (r ∷ rs) n (record l { held = take_up r l.held })
  unfolding take_up
  taken-Calm r c = record {
    keeps = ap (λ z. (take_up r z.0, z.1)) c.keeps;
    rest = c.rest;
    left = c.left;
    clean = c.clean;
    shown = c.shown;
  }

  pub returned-Calm :
      (r : Resource) → Calm g (r ∷ rs) n l → Calm g rs n (record l { held = give_back r l.held })
  unfolding take_up
  returned-Calm r c = record {
    keeps =
        ap (λ z. (give_back r z.0, z.1)) c.keeps
        ∙ ap (λ z. (z, n)) (give_back-take_up r (some rs) rs refl);
    rest = c.rest;
    left = c.left;
    clean = c.clean;
    shown = c.shown;
  }

opened-Calm :
    {D : Type 0} {g : List ℕ → Option TcpLayer} {rs : List Resource} (l : Ledger D)
    → Calm g rs 0 l
    → Calm g rs 1 (record l { sockets = l.sockets + 1 })
opened-Calm l c = record {
  keeps = ap (λ z. (z.0, z.1 + 1)) c.keeps;
  rest = c.rest;
  left = c.left;
  clean = c.clean;
  shown = c.shown;
}

-- A resource `r` is taken up by a call that may fail.
pub taken-Split :
    {D E : Type 0} (g : List ℕ → Option TcpLayer) (rs : List Resource) (n : ℕ) (l : Ledger D)
    (r : Resource) (failure : Option E)
    → Calm g rs n l
    → Split (Calm g (r ∷ rs) n) (Calm g rs n) failure (taken r failure l)
taken-Split g rs n l r none c = taken-Calm l r c
taken-Split g rs n l r (some err) c = c

abbrev pub Loaded :
    {D E P : Type 0} → (List ℕ → Option TcpLayer) → List Resource → E ⊎ P → Ledger D → Type 0
Loaded g rs (inl err) l = Calm g rs 0 l
Loaded g rs (inr p) l = Calm g (program ∷ rs) 0 l

abbrev pub Opened :
    {D E S : Type 0} → (List ℕ → Option TcpLayer) → List Resource → E ⊎ S → Ledger D → Type 0
Opened g rs (inl err) l = Calm g rs 0 l
Opened g rs (inr s) l = Calm g rs 1 l

pub opened-Opened :
    {D E S : Type 0} (g : List ℕ → Option TcpLayer) (rs : List Resource) (l : Ledger D) (x : E ⊎ S)
    → Calm g rs 0 l
    → Opened g rs x (opened x l)
opened-Opened g rs l (inl err) c = c
opened-Opened g rs l (inr s) c = opened-Calm l c

pub loaded-Loaded :
    {D E P : Type 0} (g : List ℕ → Option TcpLayer) (rs : List Resource) (l : Ledger D) (x : E ⊎ P)
    → Calm g rs 0 l
    → Loaded g rs x (loaded x l)
loaded-Loaded g rs l (inl err) c = c
loaded-Loaded g rs l (inr p) c = taken-Calm l program c
