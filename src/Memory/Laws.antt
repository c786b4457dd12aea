-- ===== src/Memory/Laws.antt =====
-- A pointer into the packet, seen as the octets from there to the packet's end.
use defrizer.Common.{
  ℕ, zero, suc, ◌+◌, ◌-◌, ◌*◌, ◌^◌, ◌≤◌, ◌<◌, ◌≡◌, refl, ap, ◌∙◌, arith, List, [], ◌∷◌, some, ltb,
  length, get_or, drop, get_elem?-eq-get_or, ptr_add, ptr_add_lem,
}
use defrizer.Endian.{Endian, little, big, bpf_runtime_htons, builtin_bswap}
use defrizer.Memory.{XdpMd, data_end, IsPlaced, load8, load16, load32}
use defrizer.Spec.Layers.{octet, be16}

-- The 32-bit number that a target loads where the wire holds two halves in network order.
unfoldable pub raw32 : Endian → ℕ → ℕ → ℕ
raw32 little first second =
    bpf_runtime_htons little first + bpf_runtime_htons little second * 2 ^ 16
raw32 big first second = first * 2 ^ 16 + second

-- `rest` is what lies from `p` on.
pub record At (md : XdpMd) (p : ℕ) (rest : List ℕ) : Type 0 where
  pub ends : p + length rest ≡ data_end md
  pub loads : (n : ℕ) → n < length rest → load8 md (p + n) ≡ some (octet rest n)

pub length-drop {ℓ} : {A : Type ℓ} (n : ℕ) (xs : List A) → length (drop n xs) ≡ length xs - n
length-drop zero xs = omega arith
length-drop (suc n) [] = omega arith
length-drop (suc n) (x ∷ xs) = omega (arith, length-drop n xs)

get_or-drop : (n i : ℕ) (xs : List ℕ) → get_or (drop n xs) i 0 ≡ get_or xs (n + i) 0
get_or-drop zero i xs = ap (λ k. get_or xs k 0) (omega arith)
get_or-drop (suc n) i [] = refl
get_or-drop (suc n) i (x ∷ xs) =
    get_or-drop n i xs
    ∙ ap (λ k. get_or (x ∷ xs) k 0) {x = suc (n + i)} {y = suc n + i} (omega arith)

octet-drop : (n i : ℕ) (xs : List ℕ) → octet (drop n xs) i ≡ octet xs (n + i)
unfolding octet
octet-drop n i xs = rw (get_or-drop n i xs)

pub octet-lt : (xs : List ℕ) (i : ℕ) → octet xs i < 256
unfolding octet
octet-lt xs i = omega arith

pub be16-lt : (xs : List ℕ) (i : ℕ) → be16 xs i < 2 ^ 16
unfolding be16
be16-lt xs i = omega (arith, octet-lt xs i, octet-lt xs (i + 1))

-- The start of the packet stands before all of its octets.
pub At-start : (md : XdpMd) → At md md.data_start md.frame
unfolding load8 octet
At-start md = record {
  ends = refl;
  loads = λ n h. ground (arith, get_elem?-eq-get_or md.frame n 0);
}

module _ {md : XdpMd} {p : ℕ} {rest : List ℕ} (placed : IsPlaced md) (here : At md p rest) where
  -- The bounds checks of the parsers, at header sizes, compare with the octets that are left.
  pub bound-At : (n : ℕ) → n ≤ 2 ^ 12 → ltb (data_end md) (ptr_add p n) ≡ ltb (length rest) n
  bound-At n small = ground (arith, here.ends, ptr_add_lem p n)

  pub load8-At : (n : ℕ) → n < length rest → load8 md (ptr_add p n) ≡ some (octet rest n)
  load8-At n inside = rw (ptr_add_lem p n (omega (arith, here.ends))) (here.loads n inside)

  pub drop-At : (n : ℕ) → n ≤ length rest → At md (ptr_add p n) (drop n rest)
  drop-At n inside = rw (ptr_add_lem p n (omega (arith, here.ends))) (record {
    ends = omega (arith, here.ends, length-drop n rest);
    loads = λ k h.
        rw (octet-drop n k rest)
          (ap (load8 md) (regroup k) ∙ here.loads (n + k) (omega (arith, length-drop n rest)));
  })
    where
      regroup : (k : ℕ) → p + n + k ≡ p + (n + k)
      regroup k = omega arith

  step_back : (n : ℕ) → n < length rest → ptr_add (ptr_add p n) 1 ≡ ptr_add p (n + 1)
  step_back n inside = omega (
    arith,
    here.ends,
    ptr_add_lem p n (omega (arith, here.ends)),
    ptr_add_lem (ptr_add p n) 1 (omega (arith, here.ends, ptr_add_lem p n)),
    ptr_add_lem p (n + 1) (omega (arith, here.ends)),
  )

  pub load16-At :
      (e : Endian) (n : ℕ)
      → n + 1 < length rest
      → load16 md e (ptr_add p n) ≡ some (bpf_runtime_htons e (be16 rest n))
  unfolding load16 be16 bpf_runtime_htons builtin_bswap
  load16-At little n inside =
      rw (step_back n (omega arith), load8-At n (omega arith), load8-At (n + 1) inside)
        (ap some (omega (arith, octet-lt rest n, octet-lt rest (n + 1))))
  load16-At big n inside =
      rw (step_back n (omega arith), load8-At n (omega arith), load8-At (n + 1) inside)

  step_two : (n : ℕ) → n + 1 < length rest → ptr_add (ptr_add p n) 2 ≡ ptr_add p (n + 2)
  step_two n inside = omega (
    arith,
    here.ends,
    ptr_add_lem p n (omega (arith, here.ends)),
    ptr_add_lem (ptr_add p n) 2 (omega (arith, here.ends, ptr_add_lem p n)),
    ptr_add_lem p (n + 2) (omega (arith, here.ends)),
  )

  pub load32-At :
      (e : Endian) (n : ℕ)
      → n + 3 < length rest
      → load32 md e (ptr_add p n) ≡ some (raw32 e (be16 rest n) (be16 rest (n + 2)))
  unfolding load32 raw32 bpf_runtime_htons
  load32-At little n inside =
      rw
        (
          step_two n (omega arith),
          load16-At little n (omega arith),
          load16-At little (n + 2) (omega arith),
        )
        refl
  load32-At big n inside =
      rw
        (
          step_two n (omega arith),
          load16-At big n (omega arith),
          load16-At big (n + 2) (omega arith),
        )
        refl
