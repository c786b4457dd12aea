-- ===== src/Driver/Linked/Prompt.antt =====
-- The methods of `Program` of dumpframes/program.go come back where the kernel detaches a program in
-- time.
use defrizer.Common.{
  call-cases, ℕ, zero, suc, ◌≤◌, ◌<◌, ◌≡◌, arith, sym, ◌⊎◌, inl, inr, List, [], Option, none, some,
  u32, ◌>>=◌,
}
use defrizer.Link.{
  NetLink, NetLinkCalls, LinkError, default_xdp_flags, wait_removed, remove_program, attach_program,
  attach,
}
use defrizer.Link.Removal.{
  found-cases, wait_fails, wait_goes_on, wait_stops, remove_fails, remove_idle, remove_refused,
  remove_waits, IsFinal, attached-HasProgram, after_looks, Settles,
}
use defrizer.Maps.{
  MapCalls, LoadedProgram, ProgramError, loaded, register, unregister, close, close_handle,
  failed_to_close_xsks_map, failed_to_close_qidconf_map, failed_to_close_program,
}
use defrizer.Maps.Outcome.{register_xsks_fails, register_qidconf_fails, register_succeeds}
use defrizer.Driver.Linked.{outcome}
use defrizer.Driver.Returns.{Returns, returns, Returns-map, Kept}

-- The calls come back soon: none raises the bound `left`, and after a call that detaches the program
-- of an interface that was looked up, one of the first `looks` looks at that interface is a final one.
pub record IsPrompt {W : Type 0} (maps : MapCalls W) (links : NetLinkCalls W) (looks : ℕ)
    (left : W → ℕ) : Type 0 where
  pub settles : (i : ℕ) → Settles links i looks
  pub look_keeps :
      (w w' : W) (i : ℕ) (r : ℕ ⊎ NetLink) → links.link_by_index w i ≡ (r, w') → left w' ≤ left w
  pub set_keeps :
      (w w' : W) (link : NetLink) (r : Option ℕ)
      → links.set_xdp_fd w link none ≡ (r, w')
      → left w' ≤ left w
  pub set_flags_keeps :
      (w w' : W) (link : NetLink) (fd flags : ℕ) (r : Option ℕ)
      → links.set_xdp_fd_with_flags w link fd flags ≡ (r, w')
      → left w' ≤ left w
  pub sleep_keeps : (w : W) → left (links.sleep w) ≤ left w
  pub put_keeps :
      (w w' : W) (fd key value : ℕ) (r : Option ℕ)
      → maps.put w fd key value ≡ (r, w')
      → left w' ≤ left w
  pub delete_keeps :
      (w w' : W) (fd key : ℕ) (r : Option ℕ) → maps.delete w fd key ≡ (r, w') → left w' ≤ left w
  pub close_keeps : (w : W) (fd : ℕ) → left ((maps.close w fd).1) ≤ left w

pub outcome-Kept :
    {W F G : Type 0} {left : W → ℕ} {w : W} (wrap : F → G) {o : Option (Option F × W)}
    → Returns (Kept left w) o
    → Returns (Kept left w) (outcome wrap o)
outcome-Kept wrap (returns kept) = returns kept

module _ {W : Type 0} {maps : MapCalls W} {links : NetLinkCalls W} {looks : ℕ} {left : W → ℕ}
    (prompt : IsPrompt maps links looks left) where
  wait-Kept :
      (i fuel n : ℕ) (w : W)
      → n < fuel
      → IsFinal ((links.link_by_index (after_looks links i n w) i).0)
      → Returns (Kept left w) (wait_removed links i fuel w)
  unfolding after_looks
  wait-Kept i zero n w small final = absurd (omega arith)
  wait-Kept i (suc fuel) zero w small final = elim (found-cases (links.link_by_index w i)) [
    | inl (err, w', p) ↦
        rw (wait_fails links i fuel err w w' p) (returns (prompt.look_keeps w w' i _ p))
    | inr (inl (link, w', p, on)) ↦
        let free : IsFinal (inr link) = rw p at final in absurd (free (attached-HasProgram link on))
    | inr (inr (link, w', p, off)) ↦
        rw (wait_stops links i fuel w w' link p off) (returns (prompt.look_keeps w w' i _ p))
  ]
  wait-Kept i (suc fuel) (suc n) w small final = elim (found-cases (links.link_by_index w i)) [
    | inl (err, w', p) ↦
        rw (wait_fails links i fuel err w w' p) (returns (prompt.look_keeps w w' i _ p))
    | inr (inl (link, w', p, on)) ↦
        let moved : (links.link_by_index w i).1 ≡ w' = rw p in
        let kept = prompt.look_keeps w w' i _ p in
        let slept = prompt.sleep_keeps w' in
        rw (wait_goes_on links i fuel w w' link p on) (
          Returns-map
            (wait-Kept i fuel n (links.sleep w') (omega (arith, small)) (rw (sym moved) final))
            λ _ w2 k. omega (arith, kept, slept, k))
    | inr (inr (link, w', p, off)) ↦
        rw (wait_stops links i fuel w w' link p off) (returns (prompt.look_keeps w w' i _ p))
  ]

  pub remove-Kept : (i : ℕ) (w : W) → Returns (Kept left w) (remove_program links i looks w)
  remove-Kept i w = elim (found-cases (links.link_by_index w i)) [
    | inl (err, w', p) ↦
        rw (remove_fails links i looks err w w' p) (returns (prompt.look_keeps w w' i _ p))
    | inr (inl (link, w', p, on)) ↦
        let kept = prompt.look_keeps w w' i _ p in
        elim (call-cases (links.set_xdp_fd w' link none)) [
          | inl (err, w2, q) ↦
              let set = prompt.set_keeps w' w2 link _ q in
              rw (remove_refused links i looks err w w' w2 link p on q)
                (returns (omega (arith, kept, set)))
          | inr (w2, q) ↦
              let set = prompt.set_keeps w' w2 link _ q in
              let (n, small, final) =
                prompt.settles i w w' w2 link p (attached-HasProgram link on) q in
              rw (remove_waits links i looks w w' w2 link p on q) (
                Returns-map (wait-Kept i looks n w2 small final)
                  λ _ w3 k. omega (arith, kept, set, k))
        ]
    | inr (inr (link, w', p, off)) ↦
        rw (remove_idle links i looks w w' link p off) (returns (prompt.look_keeps w w' i _ p))
  ]

  attach_program-Kept :
      (i fd : ℕ) (w : W) → Returns (Kept left w) (some (attach_program links i fd w))
  unfolding attach_program
  attach_program-Kept i fd w = elim (found-cases (links.link_by_index w i)) [
    | inl (err, w', p) ↦ rw (p, attach_program, p) (returns (prompt.look_keeps w w' i _ p))
    | inr (inl (link, w', p, _)) ↦ attached w' link p
    | inr (inr (link, w', p, _)) ↦ attached w' link p
  ]
    where
      attached :
          (w' : W) (link : NetLink)
          → links.link_by_index w i ≡ (inr link, w')
          → Returns (Kept left w) (some (attach_program links i fd w))
      attached w' link p =
          let kept = prompt.look_keeps w w' i _ p in
          elim (call-cases (links.set_xdp_fd_with_flags w' link fd default_xdp_flags)) [
            | inl (err, w2, q) ↦
                let set = prompt.set_flags_keeps w' w2 link fd default_xdp_flags _ q in
                rw (p, attach_program, p, q, p, q) (returns (omega (arith, kept, set)))
            | inr (w2, q) ↦
                let set = prompt.set_flags_keeps w' w2 link fd default_xdp_flags _ q in
                rw (p, attach_program, p, q, p, q) (returns (omega (arith, kept, set)))
          ]

  pub attach-Kept : (i fd : ℕ) (w : W) → Returns (Kept left w) (attach links i looks fd w)
  unfolding attach
  attach-Kept i fd w = after (remove-Kept i w)
    where
      after :
          {o : Option (Option LinkError × W)}
          → Returns (Kept left w) o
          → Returns (Kept left w) (do
            r ← o
            let (failure, w') = r
            elim failure [
              | some err ↦ some (some err, w')
              | none ↦ some (attach_program links i fd w')
            ])
      after (returns {a = some err} kept) = returns kept
      after (returns {a = none} {w = w'} kept) =
          Returns-map (attach_program-Kept i fd w') λ _ w2 k. omega (arith, kept, k)

  pub register-Kept :
      (program queues sockets q fd : ℕ) (w : W)
      → Returns (Kept left w) (register maps (loaded program queues sockets) q fd w)
  register-Kept program queues sockets q fd w =
      elim (call-cases (maps.put w sockets (u32 q) (u32 fd))) [
        | inl (err, w1, p1) ↦
            rw (register_xsks_fails maps program queues sockets q fd err w w1 p1)
              (returns (prompt.put_keeps w w1 _ _ _ _ p1))
        | inr (w1, p1) ↦
            let kept = prompt.put_keeps w w1 _ _ _ _ p1 in
            elim (call-cases (maps.put w1 queues (u32 q) 1)) [
              | inl (err, w2, p2) ↦
                  let kept' = prompt.put_keeps w1 w2 _ _ _ _ p2 in
                  rw (register_qidconf_fails maps program queues sockets q fd err w w1 w2 p1 p2)
                    (returns (omega (arith, kept, kept')))
              | inr (w2, p2) ↦
                  let kept' = prompt.put_keeps w1 w2 _ _ _ _ p2 in
                  rw (register_succeeds maps program queues sockets q fd w w1 w2 p1 p2)
                    (returns (omega (arith, kept, kept')))
            ]
      ]

  pub unregister-Kept :
      (program queues sockets q : ℕ) (w : W)
      → Returns (Kept left w) (unregister maps (loaded program queues sockets) q w)
  unfolding unregister
  unregister-Kept program queues sockets q w = elim (call-cases (maps.delete w queues (u32 q))) [
    | inl (err, w1, p1) ↦ rw (p1, p1) (returns (prompt.delete_keeps w w1 _ _ _ p1))
    | inr (w1, p1) ↦
        let kept = prompt.delete_keeps w w1 _ _ _ p1 in
        elim (call-cases (maps.delete w1 sockets (u32 q))) [
          | inl (err, w2, p2) ↦
              let kept' = prompt.delete_keeps w1 w2 _ _ _ p2 in
              rw (p1, p1, p2, p1, p2) (returns (omega (arith, kept, kept')))
          | inr (w2, p2) ↦
              let kept' = prompt.delete_keeps w1 w2 _ _ _ p2 in
              rw (p1, p1, p2, p1, p2) (returns (omega (arith, kept, kept')))
        ]
  ]

  pub close_handle-le :
      (wrap : ℕ → ProgramError) (handle : Option ℕ) (errs : List ProgramError) (w : W)
      → left ((close_handle maps wrap handle errs w).1) ≤ left w
  unfolding close_handle
  close_handle-le wrap none errs w = omega arith
  close_handle-le wrap (some fd) errs w =
      let kept = prompt.close_keeps w fd in
      elim (call-cases (maps.close w fd)) [
        | inl (err, w', p) ↦ rw (close_handle, p) kept
        | inr (w', p) ↦ rw (close_handle, p) kept
      ]

  pub close-le : (p : LoadedProgram) (w : W) → left ((close maps p w).2) ≤ left w
  unfolding close
  close-le p w =
      let one = close_handle maps failed_to_close_xsks_map p.sockets [] w in
      let two = close_handle maps failed_to_close_qidconf_map p.queues one.0 one.1 in
      let first = close_handle-le failed_to_close_xsks_map p.sockets [] w in
      let second = close_handle-le failed_to_close_qidconf_map p.queues one.0 one.1 in
      let third = close_handle-le failed_to_close_program p.program two.0 two.1 in
      omega (arith, first, second, third)
