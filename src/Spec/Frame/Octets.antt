-- ===== src/Spec/Frame/Octets.antt =====
-- Reading lists of octets that are put together from parts.
use defrizer.Common.{
  ℕ, zero, suc, ◌+◌, ◌≡◌, refl, ap, ◌∙◌, arith, List, [], ◌∷◌, ◌++◌, length, get_or, drop,
}
use defrizer.Spec.Layers.{octet}

get_or-append :
    (xs ys : List ℕ) (n i : ℕ) → length xs ≡ n → get_or (xs ++ ys) (n + i) 0 ≡ get_or ys i 0
get_or-append [] ys zero i h = ap (λ k. get_or ys k 0) (omega arith)
get_or-append [] ys (suc n) i h = absurd (omega arith)
get_or-append (x ∷ xs) ys zero i h = absurd (omega arith)
get_or-append (x ∷ xs) ys (suc n) i h =
    ap (λ k. get_or (x ∷ (xs ++ ys)) k 0) {x = suc n + i} {y = suc (n + i)} (omega arith)
    ∙ get_or-append xs ys n i (omega arith)

-- The octets behind a part of `n` octets.
pub octet-append :
    (xs ys : List ℕ) (n i : ℕ) → length xs ≡ n → octet (xs ++ ys) (n + i) ≡ octet ys i
unfolding octet
octet-append xs ys n i h = rw (get_or-append xs ys n i h)

pub drop-append : (xs ys : List ℕ) (n : ℕ) → length xs ≡ n → drop n (xs ++ ys) ≡ ys
drop-append [] ys zero h = refl
drop-append [] ys (suc n) h = absurd (omega arith)
drop-append (x ∷ xs) ys zero h = absurd (omega arith)
drop-append (x ∷ xs) ys (suc n) h = drop-append xs ys n (omega arith)

pub drop-append_more :
    (xs ys : List ℕ) (n i : ℕ) → length xs ≡ n → drop (n + i) (xs ++ ys) ≡ drop i ys
drop-append_more [] ys zero i h = ap (λ k. drop k ys) (omega arith)
drop-append_more [] ys (suc n) i h = absurd (omega arith)
drop-append_more (x ∷ xs) ys zero i h = absurd (omega arith)
drop-append_more (x ∷ xs) ys (suc n) i h =
    ap (λ k. drop k (x ∷ (xs ++ ys))) {x = suc n + i} {y = suc (n + i)} (omega arith)
    ∙ drop-append_more xs ys n i (omega arith)
