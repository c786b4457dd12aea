-- ===== src/Helpers/Results.antt =====
-- The declared type of each helper's result, against what its comment says of the result.
use defrizer.Common.{
  ℕ, ◌+◌, ◌≤◌, ◌≡◌, refl, arith, Bool, true, false, not, ◌&&◌, leb, ◌==◌, get_elem?, some, length,
  if◌then◌else◌, Bool-cases, ◌⊎◌, inl, inr,
}
use defrizer.Helpers.Types.{
  Helper, is_signed, is_pointer, is_void, may_fail, gives_pointer, gives_nothing,
}
use defrizer.Helpers.Table.{helpers}
use defrizer.Helpers.Laws.{all_from, all_from_lem}

-- `bpf_perf_event_read`, whose comment speaks of a negative error code and whose type is `__u64`.
abbrev pub perf_event_read : ℕ
perf_event_read = 22

same : Bool → Bool → Bool
same true b = b
same false b = not b

same_lem : (a b : Bool) → same a b ≡ true → a ≡ b
unfolding same
same_lem true true h = refl
same_lem true false h = ground arith
same_lem false true h = ground arith
same_lem false false h = refl

signed_right : ℕ → Helper → Bool
signed_right i h =
    if may_fail h.outcome then same (is_signed h.ret) (not (h.id == perf_event_read)) else true

signed_table : all_from 0 signed_right helpers ≡ true
unfolding all_from signed_right same is_signed may_fail helpers
signed_table = refl

error_is_signed :
    (i : ℕ) (h : Helper)
    → get_elem? helpers i ≡ some h
    → may_fail h.outcome ≡ true
    → is_signed h.ret ≡ not (h.id == perf_event_read)
unfolding signed_right
error_is_signed i h e fails =
    let t : signed_right (0 + i) h ≡ true =
      all_from_lem 0 i signed_right helpers h signed_table e in
    same_lem (is_signed h.ret) (not (h.id == perf_event_read)) (ground arith)

shape_right : ℕ → Helper → Bool
shape_right i h =
    leb (length h.args) 5
    && (same (is_pointer h.ret) (gives_pointer h.outcome)
        && same (is_void h.ret) (gives_nothing h.outcome))

shape_table : all_from 0 shape_right helpers ≡ true
unfolding all_from shape_right same is_pointer is_void gives_pointer gives_nothing helpers
shape_table = refl

-- Every helper takes at most the five arguments that a BPF call has registers for, its type is a
-- pointer exactly if its comment says that a pointer is returned, and `void` exactly if nothing is.
-- One whose comment announces a negative error has a signed type, except `bpf_perf_event_read`, whose
-- type is unsigned.
pub helper_shape :
    (i : ℕ) (h : Helper)
    → get_elem? helpers i ≡ some h
    → (length h.args ≤ 5)
      × (is_pointer h.ret ≡ gives_pointer h.outcome)
      × (is_void h.ret ≡ gives_nothing h.outcome)
      × ((may_fail h.outcome ≡ false) ⊎ (is_signed h.ret ≡ not (h.id == perf_event_read)))
unfolding shape_right
helper_shape i h e =
    let t : shape_right (0 + i) h ≡ true = all_from_lem 0 i shape_right helpers h shape_table e in
    (
      ground arith,
      same_lem (is_pointer h.ret) (gives_pointer h.outcome) (ground arith),
      same_lem (is_void h.ret) (gives_nothing h.outcome) (ground arith),
      elim (Bool-cases (may_fail h.outcome)) [
        | inl fails ↦ inr (error_is_signed i h e fails)
        | inr sound ↦ inl sound
      ],
    )
