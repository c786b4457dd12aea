-- ===== src/Tests/Kernel.antt =====
-- A kernel with the two maps of the redirecting program, as functions from keys.
use defrizer.Common.{
  ℕ, ◌≡◌, refl, arith, inl, inr, Option, none, some, ◌==◌, ltb, if◌then◌else◌, Bool-cases,
  Option-cases, true, false,
}
use defrizer.Program.Sock.{SockHelpers}
use defrizer.Program.Action.{action_code}
use defrizer.Maps.{MapCalls}
use defrizer.Maps.Kernel.{MapView, IsKernel}

pub record World : Type 0 where
  pub entry : ℕ → ℕ
  pub socket : ℕ → Option ℕ
  pub target : Option ℕ

abbrev pub fresh : World
fresh = record { entry = λ i. 0; socket = λ i. none; target = none }

abbrev pub stored : World → ℕ → ℕ → ℕ → World
stored w m i x =
    if m == 4
    then record w { entry = λ j. if j == i then x else w.entry j }
    else record w { socket = λ j. if j == i then some x else w.socket j }

-- The descriptors are 4 for `qidconf_map` and 5 for `xsks_map`.
abbrev pub calls : MapCalls World
calls = record {
  put = λ w m i x. if ltb i 64 then (none, stored w m i x) else (some 7, w);
  delete = λ w m i. if m == 4 then (some 22, w) else (some 2, w);
  close = λ w fd. (none, w);
}

abbrev pub maps : SockHelpers World
maps = record {
  map_lookup_elem = λ w i. if ltb i 64 then some i else none;
  read_int = λ w p. w.entry p;
  redirect_map =
      λ w i flags. elim (w.socket i) [ none ↦ (0, w) | some s ↦ (4, record w { target = some s }) ];
}

abbrev pub view : MapView World
view = record { entry = λ w. w.entry; socket = λ w. w.socket; target = λ w. w.target }

put_in_range :
    (w : World) (m i x : ℕ) → ltb i 64 ≡ true → calls.put w m i x ≡ (none, stored w m i x)
put_in_range w m i x small = rw small

put_out_of_range : (w : World) (m i x : ℕ) → ltb i 64 ≡ false → calls.put w m i x ≡ (some 7, w)
put_out_of_range w m i x large = rw large

put_done :
    (w w' : World) (m i x : ℕ)
    → calls.put w m i x ≡ (none, w')
    → (ltb i 64 ≡ true) × (w' ≡ stored w m i x)
put_done w w' m i x p = elim (Bool-cases (ltb i 64)) [
  | inl small ↦ (small, cc (p, put_in_range w m i x small))
  | inr large ↦ cc (p, put_out_of_range w m i x large)
]

put_failed : (w w' : World) (m i x err : ℕ) → calls.put w m i x ≡ (some err, w') → w' ≡ w
put_failed w w' m i x err p = elim (Bool-cases (ltb i 64)) [
  | inl small ↦ cc (p, put_in_range w m i x small)
  | inr large ↦ cc (p, put_out_of_range w m i x large)
]

redirect_leaves :
    (w : World) (i j : ℕ)
    → (view.entry ((maps.redirect_map w i 0).1) j ≡ view.entry w j)
      × (view.socket ((maps.redirect_map w i 0).1) j ≡ view.socket w j)
redirect_leaves w i j = elim (Option-cases (w.socket i)) [
  | inl absent ↦ rw absent (refl, refl)
  | inr (s, found) ↦ rw found (refl, refl)
]

pub maps-IsKernel : IsKernel calls maps view 4 5
unfolding action_code
maps-IsKernel = record {
  lookup_in = λ w i small. (i, ground arith, refl);
  lookup_out = λ w i large. ground arith;
  put_fails = λ w w' m i x err p. put_failed w w' m i x err p;
  put_in = λ w w' i x p. let (small, done) = put_done w w' 4 i x p in ground arith;
  put_queues = λ w w' i x p j. let (small, done) = put_done w w' 4 i x p in rw done (refl, refl);
  put_sockets = λ w w' i x p j. let (small, done) = put_done w w' 5 i x p in rw done (refl, refl);
  delete_queues = λ w i. refl;
  redirect_maps = λ w i j. redirect_leaves w i j;
  redirect_found = λ w i s found. rw found (refl, refl);
  redirect_missing = λ w i absent. rw absent;
}
