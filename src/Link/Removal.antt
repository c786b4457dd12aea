-- ===== src/Link/Removal.antt =====
-- When the removal of an XDP program ends, and what it has seen then.
use defrizer.Common.{
  call-cases, ℕ, zero, suc, ◌<◌, ◌≡◌, refl, sym, arith, ◌⊎◌, inl, inr, ap, Bool, true, false,
  Option, none, some, Bool-cases,
}
use defrizer.Link.{
  NetLink, NetLinkCalls, LinkError, is_xdp_attached, wait_removed, remove_program, attach_program,
  attach, link_error, set_xdp_fd_failed,
}

-- What netlink shows of a link with an XDP program: attributes with an entry `Xdp` that says
-- `Attached`. A link with no such entry has no program.
abbrev pub HasProgram : NetLink → Type 0
HasProgram link = link.attrs ≡ some (some true)

pub attached-HasProgram : (link : NetLink) → is_xdp_attached link ≡ true → HasProgram link
unfolding is_xdp_attached
attached-HasProgram link on = shown (link.attrs) on
  where
    shown :
        (attrs : Option (Option Bool))
        → (elim attrs [ none ↦ false | some xdp ↦ elim xdp [ none ↦ false | some on ↦ on ] ]) ≡ true
        → attrs ≡ some (some true)
    shown none e = cc e
    shown (some none) e = cc e
    shown (some (some on)) e = ap (λ b. some (some b)) e

pub free-HasProgram : (link : NetLink) → is_xdp_attached link ≡ false → ¬ HasProgram link
unfolding is_xdp_attached
free-HasProgram link off shown =
    let on : is_xdp_attached link ≡ true = rw shown refl in cc (on, off)

-- To split on the answer to a look for a link.
pub found-cases :
    {W : Type 0} (x : (ℕ ⊎ NetLink) × W)
    → ((err : ℕ) × (w : W) × (x ≡ (inl err, w)))
      ⊎ (((link : NetLink) × (w : W) × (x ≡ (inr link, w)) × (is_xdp_attached link ≡ true))
          ⊎ ((link : NetLink) × (w : W) × (x ≡ (inr link, w)) × (is_xdp_attached link ≡ false)))
found-cases (inl err, w) = inl (err, w, refl)
found-cases (inr link, w) = elim (Bool-cases (is_xdp_attached link)) [
  | inl on ↦ inr (inl (link, w, refl, on))
  | inr off ↦ inr (inr (link, w, refl, off))
]

-- An answer that ends the wait: an error, or a link with no XDP program.
abbrev pub IsFinal : ℕ ⊎ NetLink → Type 0
IsFinal (inl err) = Unit {0}
IsFinal (inr link) = ¬ HasProgram link

module _ {W : Type 0} (k : NetLinkCalls W) (ifindex : ℕ) where
  -- The state after `n` looks with a second's sleep behind each.
  unfoldable pub after_looks : ℕ → W → W
  after_looks zero w = w
  after_looks (suc n) w = after_looks n (k.sleep ((k.link_by_index w ifindex).1))

  pub wait_fails :
      (fuel err : ℕ) (w w' : W)
      → k.link_by_index w ifindex ≡ (inl err, w')
      → wait_removed k ifindex (suc fuel) w ≡ some (some (link_error err), w')
  unfolding wait_removed
  wait_fails fuel err w w' p = rw (p, wait_removed, p)

  pub wait_goes_on :
      (fuel : ℕ) (w w' : W) (link : NetLink)
      → k.link_by_index w ifindex ≡ (inr link, w')
      → is_xdp_attached link ≡ true
      → wait_removed k ifindex (suc fuel) w ≡ wait_removed k ifindex fuel (k.sleep w')
  unfolding wait_removed
  wait_goes_on fuel w w' link p on = rw (p, wait_removed, on, p)

  pub wait_stops :
      (fuel : ℕ) (w w' : W) (link : NetLink)
      → k.link_by_index w ifindex ≡ (inr link, w')
      → is_xdp_attached link ≡ false
      → wait_removed k ifindex (suc fuel) w ≡ some (none, w')
  unfolding wait_removed
  wait_stops fuel w w' link p off = rw (p, wait_removed, off, p)

  -- A state right behind a look that shows the link with no XDP program.
  unfoldable pub IsSeenFree : W → Type 0
  IsSeenFree w' =
      (w : W) × (link : NetLink) × (k.link_by_index w ifindex ≡ (inr link, w'))
      × (¬ HasProgram link)

  -- A removal that ends, with an error, or with nil in a state that has seen the link free.
  unfoldable pub Removes : Option (Option LinkError × W) → Type 0
  Removes o =
      (w' : W) × (((err : LinkError) × (o ≡ some (some err, w')))
        ⊎ ((o ≡ some (none, w')) × IsSeenFree w'))

  -- One look that shows the program still there.
  going_on :
      (n fuel : ℕ) (w w' : W) (link : NetLink)
      → k.link_by_index w ifindex ≡ (inr link, w')
      → is_xdp_attached link ≡ true
      → n < suc fuel
      → IsFinal ((k.link_by_index (after_looks n w) ifindex).0)
      → ((m : ℕ)
          → m < fuel
          → IsFinal ((k.link_by_index (after_looks m (k.sleep w')) ifindex).0)
          → Removes (wait_removed k ifindex fuel (k.sleep w')))
      → Removes (wait_removed k ifindex (suc fuel) w)
  unfolding after_looks
  going_on zero fuel w w' link p on small final rest =
      let free : IsFinal (inr link) = rw p at final in absurd (free (attached-HasProgram link on))
  going_on (suc m) fuel w w' link p on small final rest =
      let moved : (k.link_by_index w ifindex).1 ≡ w' = rw p in
      rw (wait_goes_on fuel w w' link p on) (rest m (omega arith) (rw (sym moved) final))

  wait_removed-Removes :
      (n fuel : ℕ) (w : W)
      → n < fuel
      → IsFinal ((k.link_by_index (after_looks n w) ifindex).0)
      → Removes (wait_removed k ifindex fuel w)
  unfolding Removes IsSeenFree after_looks
  wait_removed-Removes n zero w small final = absurd (omega arith)
  wait_removed-Removes n (suc fuel) w small final = elim (found-cases (k.link_by_index w ifindex)) [
    | inl (err, w', p) ↦ (w', inl (link_error err, wait_fails fuel err w w' p))
    | inr (inl (link, w', p, on)) ↦
        going_on n fuel w w' link p on small final (λ m. wait_removed-Removes m fuel (k.sleep w'))
    | inr (inr (link, w', p, off)) ↦
        (w', inr (wait_stops fuel w w' link p off, (w, link, p, free-HasProgram link off)))
  ]

  pub remove_fails :
      (fuel err : ℕ) (w w' : W)
      → k.link_by_index w ifindex ≡ (inl err, w')
      → remove_program k ifindex fuel w ≡ some (some (link_error err), w')
  unfolding remove_program
  remove_fails fuel err w w' p = rw (p, remove_program, p)

  pub remove_idle :
      (fuel : ℕ) (w w' : W) (link : NetLink)
      → k.link_by_index w ifindex ≡ (inr link, w')
      → is_xdp_attached link ≡ false
      → remove_program k ifindex fuel w ≡ some (none, w')
  unfolding remove_program
  remove_idle fuel w w' link p off = rw (p, remove_program, off, p)

  pub remove_refused :
      (fuel err : ℕ) (w w' w2 : W) (link : NetLink)
      → k.link_by_index w ifindex ≡ (inr link, w')
      → is_xdp_attached link ≡ true
      → k.set_xdp_fd w' link none ≡ (some err, w2)
      → remove_program k ifindex fuel w ≡ some (some (set_xdp_fd_failed err), w2)
  unfolding remove_program
  remove_refused fuel err w w' w2 link p on q = rw (p, remove_program, on, p, q, p, q)

  pub remove_waits :
      (fuel : ℕ) (w w' w2 : W) (link : NetLink)
      → k.link_by_index w ifindex ≡ (inr link, w')
      → is_xdp_attached link ≡ true
      → k.set_xdp_fd w' link none ≡ (none, w2)
      → remove_program k ifindex fuel w ≡ wait_removed k ifindex fuel w2
  unfolding remove_program
  remove_waits fuel w w' w2 link p on q = rw (p, remove_program, on, p, q, p, q)

  -- When the link at this index was looked up and shown with a program, then after a call that detaches
  -- it and succeeds, one of the first `fuel` looks at this index is a final one.
  abbrev pub Settles : ℕ → Type 0
  Settles fuel =
      (w w' w2 : W) (link : NetLink)
      → k.link_by_index w ifindex ≡ (inr link, w')
      → HasProgram link
      → k.set_xdp_fd w' link none ≡ (none, w2)
      → (n : ℕ) × (n < fuel) × IsFinal ((k.link_by_index (after_looks n w2) ifindex).0)

  -- If, after a call that detaches a program from the link looked up at the index `ifindex`, and
  -- succeeds, one of the first `fuel` looks at that index, with a second's sleep behind each, gives an
  -- error or a link with no XDP program, then `removeProgram` ends, and it
  -- returns nil only right behind a look that shows the link with no XDP program.
  pub remove_program-Removes :
      (fuel : ℕ) (w : W) → Settles fuel → Removes (remove_program k ifindex fuel w)
  unfolding Removes IsSeenFree
  remove_program-Removes fuel w settles = elim (found-cases (k.link_by_index w ifindex)) [
    | inl (err, w', p) ↦ (w', inl (link_error err, remove_fails fuel err w w' p))
    | inr (inl (link, w', p, on)) ↦ elim (call-cases (k.set_xdp_fd w' link none)) [
      | inl (err, w2, q) ↦
          (w2, inl (set_xdp_fd_failed err, remove_refused fuel err w w' w2 link p on q))
      | inr (w2, q) ↦
          let (n, small, final) = settles w w' w2 link p (attached-HasProgram link on) q in
          rw (remove_waits fuel w w' w2 link p on q) (wait_removed-Removes n fuel w2 small final)
    ]
    | inr (inr (link, w', p, off)) ↦
        (w', inr (remove_idle fuel w w' link p off, (w, link, p, free-HasProgram link off)))
  ]

  -- If, after a call that detaches a program from the link looked up at the index `ifindex`, and
  -- succeeds, one of the first `fuel` looks at that index, with a second's sleep behind each, gives an
  -- error or a link with no XDP program, then `Attach` ends, and if it returns
  -- nil, it has attached the program right behind a look that shows the link with no XDP program.
  pub attach-IsSeenFree :
      (fuel fd : ℕ) (w : W)
      → Settles fuel
      → (w' : W) × (((err : LinkError) × (attach k ifindex fuel fd w ≡ some (some err, w')))
          ⊎ ((w1 : W) × IsSeenFree w1
              × (attach_program k ifindex fd w1 ≡ (none, w'))
              × (attach k ifindex fuel fd w ≡ some (none, w'))))
  unfolding attach Removes
  attach-IsSeenFree fuel fd w settles =
      let (w1, outcome) = remove_program-Removes fuel w settles in
      elim outcome [
        | inl (err, p) ↦ (w1, inl (err, rw p))
        | inr (p, free) ↦ elim (call-cases (attach_program k ifindex fd w1)) [
          | inl (err, w', q) ↦ (w', inl (err, rw (p, q)))
          | inr (w', q) ↦ (w', inr (w1, free, q, rw (p, q)))
        ]
      ]
