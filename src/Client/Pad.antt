-- ===== src/Client/Pad.antt =====
-- `pad` of client/main.py, which the client does not call.
use defrizer.Common.{
  ℕ, zero, suc, ◌+◌, ◌<◌, ◌≡◌, refl, ap, ◌∙◌, arith, List, [], ◌∷◌, ◌++◌, true, false, none, some,
  length, ◌==◌, length-append,
}
use mathlib.Core.List.{append-nil, append_assoc}
use defrizer.Client.{pad}

unfoldable pub zeros : ℕ → List ℕ
zeros zero = []
zeros (suc n) = 0 ∷ zeros n

-- A text of at most eight octets is filled up with zeros, in as many rounds as there are zeros.
pub pad_lem :
    (n : ℕ) (payload : List ℕ)
    → length payload + n ≡ 8
    → pad (suc n) payload ≡ some (payload ++ zeros n)
unfolding pad zeros
pad_lem zero payload e =
    let full : (length payload == 8) ≡ true = ground arith in rw (pad, full, append-nil payload)
pad_lem (suc n) payload e =
    let short : (length payload == 8) ≡ false = ground arith in
    let grown : length (payload ++ 0 ∷ []) ≡ length payload + 1 = length-append payload (0 ∷ []) in
    rw (pad, short)
      (pad_lem n (payload ++ 0 ∷ []) (omega (arith, e, grown))
        ∙ ap some (append_assoc payload (0 ∷ []) (zeros n)))

-- The loop does not end on a longer text.
pub pad_endless : (fuel : ℕ) (payload : List ℕ) → 8 < length payload → pad fuel payload ≡ none
unfolding pad
pad_endless zero payload long = refl
pad_endless (suc fuel) payload long =
    let other : (length payload == 8) ≡ false = ground arith in
    let grown : length (payload ++ 0 ∷ []) ≡ length payload + 1 = length-append payload (0 ∷ []) in
    rw (pad, other) (pad_endless fuel (payload ++ 0 ∷ []) (omega (arith, long, grown)))
