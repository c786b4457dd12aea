-- ===== src/Helpers/Laws.antt =====
-- What the two headers promise together.
use Prim.Native.String.{String}
use native.Mathlib.Nat.{add-zero}
use text.Mathlib.Text.{◌==◌ as str_eq}
use defrizer.Common.{
  ℕ, zero, suc, ◌+◌, ◌≡◌, refl, arith, List, [], ◌∷◌, Bool, true, false, ◌&&◌, Option, none, some,
  ◌==◌, if◌then◌else◌, get_elem?,
}
use defrizer.Helpers.Types.{Helper}
use defrizer.Helpers.Table.{helpers}
use defrizer.Helpers.Mapper.{func_mapper}

-- The number of a name in `enum bpf_func_id`.
unfoldable pub func_number : String → List (String × ℕ) → Option ℕ
func_number name [] = none
func_number name ((n, k) ∷ rest) =
    let later = func_number name rest in if str_eq n name then some k else later

-- A Boolean test of every entry with its index, from index `i` on.
unfoldable pub all_from : {A : Type 0} → ℕ → (ℕ → A → Bool) → List A → Bool
all_from i p [] = true
all_from i p (x ∷ xs) = p i x && all_from (i + 1) p xs

pub all_from_lem :
    {A : Type 0} (i j : ℕ) (p : ℕ → A → Bool) (xs : List A) (x : A)
    → all_from i p xs ≡ true
    → get_elem? xs j ≡ some x
    → p (i + j) x ≡ true
unfolding all_from
all_from_lem i j p [] x h e = ground arith
all_from_lem i zero p (y ∷ ys) x h e = rw (add-zero i) (ground arith)
all_from_lem i (suc j) p (y ∷ ys) x h e =
    rw (next i j) (all_from_lem (i + 1) j p ys x (ground arith) e)
  where
    next : (i j : ℕ) → i + suc j ≡ i + 1 + j
    next i j = omega arith

is_number : Option ℕ → ℕ → Bool
is_number none k = false
is_number (some n) k = n == k

is_number_lem : (o : Option ℕ) (k : ℕ) → is_number o k ≡ true → o ≡ some k
unfolding is_number
is_number_lem none k h = cc
is_number_lem (some n) k h = ground arith

numbered : ℕ → Helper → Bool
numbered i h = h.id == i + 1 && is_number (func_number h.name func_mapper) h.id

numbered_table : all_from 0 numbered helpers ≡ true
unfolding all_from numbered is_number func_number helpers func_mapper
numbered_table = refl

-- The declaration at index `i` of bpf_helper_defs.h has the number `i + 1`, so that no number is left
-- out or taken twice, and `enum bpf_func_id` of bpf.h gives that number under the same name.
pub helper_number :
    (i : ℕ) (h : Helper)
    → get_elem? helpers i ≡ some h
    → (h.id ≡ i + 1) × (func_number h.name func_mapper ≡ some h.id)
unfolding numbered
helper_number i h e =
    let t : numbered (0 + i) h ≡ true = all_from_lem 0 i numbered helpers h numbered_table e in
    (ground arith, is_number_lem (func_number h.name func_mapper) h.id (ground arith))
