-- ===== src/Driver/Held.antt =====
-- What a Go program has taken up and has not called the release of, the latest first; `none` once a
-- release is called out of turn. A release counts when it is called, with or without an error.
use defrizer.Common.{
  ℕ, ◌≡◌, refl, arith, List, [], ◌∷◌, Bool, true, false, Option, none, some, ◌==◌, if◌then◌else◌,
}

pub data Resource : Type 0 where
  program reader : Resource
  link queue : ℕ → Resource

abbrev pub Held : Type 0
Held = Option (List Resource)

unfoldable pub same : Resource → Resource → Bool
same program program = true
same reader reader = true
same (link i) (link j) = i == j
same (queue i) (queue j) = i == j
same _ _ = false

unfoldable pub take_up : Resource → Held → Held
take_up r none = none
take_up r (some rs) = some (r ∷ rs)

unfoldable pub give_back : Resource → Held → Held
give_back r none = none
give_back r (some []) = none
give_back r (some (x ∷ rs)) = if same r x then some rs else none

same_refl : (r : Resource) → same r r ≡ true
unfolding same
same_refl program = refl
same_refl reader = refl
same_refl (link i) = ground arith
same_refl (queue i) = ground arith

pub give_back-take_up :
    (r : Resource) (h : Held) (rs : List Resource)
    → h ≡ some rs
    → give_back r (take_up r h) ≡ some rs
unfolding give_back take_up
give_back-take_up r h rs e = rw (e, take_up, give_back, same_refl r)
