-- ===== src/Maps/Outcome.antt =====
-- How a call of `Register` or `Unregister` of dumpframes/program.go can end.
use defrizer.Common.{call-cases, ℕ, ◌≡◌, ◌⊎◌, inl, inr, Option, none, some, u32}
use defrizer.Maps.{
  MapCalls, ProgramError, loaded, register, unregister, failed_to_delete, failed_to_update_xsks_map,
  failed_to_update_qidconf_map,
}
use defrizer.Maps.Kernel.{MapView, IsKernel, einval}
use defrizer.Program.Sock.{SockHelpers}

module _ {W : Type 0} (k : MapCalls W) (program queues sockets : ℕ) where
  pub register_xsks_fails :
      (q fd err : ℕ) (w w1 : W)
      → k.put w sockets (u32 q) (u32 fd) ≡ (some err, w1)
      → register k (loaded program queues sockets) q fd w
        ≡ some (some (failed_to_update_xsks_map err), w1)
  unfolding register
  register_xsks_fails q fd err w w1 p1 = rw (p1, p1)

  pub register_qidconf_fails :
      (q fd err : ℕ) (w w1 w2 : W)
      → k.put w sockets (u32 q) (u32 fd) ≡ (none, w1)
      → k.put w1 queues (u32 q) 1 ≡ (some err, w2)
      → register k (loaded program queues sockets) q fd w
        ≡ some (some (failed_to_update_qidconf_map err), w2)
  unfolding register
  register_qidconf_fails q fd err w w1 w2 p1 p2 = rw (p1, p1, p2, p1, p2)

  pub register_succeeds :
      (q fd : ℕ) (w w1 w2 : W)
      → k.put w sockets (u32 q) (u32 fd) ≡ (none, w1)
      → k.put w1 queues (u32 q) 1 ≡ (none, w2)
      → register k (loaded program queues sockets) q fd w ≡ some (none, w2)
  unfolding register
  register_succeeds q fd w w1 w2 p1 p2 = rw (p1, p1, p2, p1, p2)

module _ {W : Type 0} (k : MapCalls W) (program queues sockets : ℕ) where
  -- On a program with no nil handle both calls return.
  pub register-returns :
      (q fd : ℕ) (w : W)
      → (r : Option ProgramError × W) × (register k (loaded program queues sockets) q fd w ≡ some r)
  register-returns q fd w = elim (call-cases (k.put w sockets (u32 q) (u32 fd))) [
    | inl (err, w1, p1) ↦ (_, register_xsks_fails k program queues sockets q fd err w w1 p1)
    | inr (w1, p1) ↦ elim (call-cases (k.put w1 queues (u32 q) 1)) [
      | inl (err, w2, p2) ↦
          (_, register_qidconf_fails k program queues sockets q fd err w w1 w2 p1 p2)
      | inr (w2, p2) ↦ (_, register_succeeds k program queues sockets q fd w w1 w2 p1 p2)
    ]
  ]

  pub unregister-returns :
      (q : ℕ) (w : W)
      → (r : Option ProgramError × W) × (unregister k (loaded program queues sockets) q w ≡ some r)
  unfolding unregister
  unregister-returns q w = elim (call-cases (k.delete w queues (u32 q))) [
    | inl (err, w1, p1) ↦ ((some (failed_to_delete err), w1), rw (p1, p1))
    | inr (w1, p1) ↦ elim (call-cases (k.delete w1 sockets (u32 q))) [
      | inl (err, w2, p2) ↦ ((some (failed_to_delete err), w2), rw (p1, p1, p2, p1, p2))
      | inr (w2, p2) ↦ ((none, w2), rw (p1, p1, p2, p1, p2))
    ]
  ]

module _ {W : Type 0} (k : MapCalls W) {h : SockHelpers W} {v : MapView W} (program : ℕ)
    {queues sockets : ℕ} (kernel : IsKernel k h v queues sockets) where
  -- A call of `register` fails with the maps unchanged, or fails with the socket stored, or stores
  -- the socket and then enables the queue.
  pub register-cases :
      (q fd : ℕ) (w w' : W) (r : Option ProgramError)
      → register k (loaded program queues sockets) q fd w ≡ some (r, w')
      → ((err : ProgramError) × (r ≡ some err) × (w' ≡ w))
        ⊎ (((err : ProgramError) × (r ≡ some err) × (k.put w sockets (u32 q) (u32 fd) ≡ (none, w')))
            ⊎ ((w1 : W) × (k.put w sockets (u32 q) (u32 fd) ≡ (none, w1))
                × (k.put w1 queues (u32 q) 1 ≡ (none, w'))))
  register-cases q fd w w' r h = elim (call-cases (k.put w sockets (u32 q) (u32 fd))) [
    | inl (err, w1, p1) ↦ inl (
      failed_to_update_xsks_map err,
      cc (h, register_xsks_fails k program queues sockets q fd err w w1 p1),
      cc (
        h,
        register_xsks_fails k program queues sockets q fd err w w1 p1,
        kernel.put_fails w w1 sockets (u32 q) (u32 fd) err p1,
      ),
    )
    | inr (w1, p1) ↦ elim (call-cases (k.put w1 queues (u32 q) 1)) [
      | inl (err, w2, p2) ↦ inr (
          inl (
            failed_to_update_qidconf_map err,
            cc (h, register_qidconf_fails k program queues sockets q fd err w w1 w2 p1 p2),
            cc (
              h,
              p1,
              register_qidconf_fails k program queues sockets q fd err w w1 w2 p1 p2,
              kernel.put_fails w1 w2 queues (u32 q) 1 err p2,
            ),
          ))
      | inr (w2, p2) ↦
          inr (
            inr (w1, p1, cc (h, p2, register_succeeds k program queues sockets q fd w w1 w2 p1 p2)))
    ]
  ]

  -- `unregister` fails, since the elements of the array map cannot be deleted.
  pub unregister_lem :
      (q : ℕ) (w : W)
      → unregister k (loaded program queues sockets) q w ≡ some (some (failed_to_delete einval), w)
  unfolding unregister
  unregister_lem q w = rw (kernel.delete_queues w (u32 q), kernel.delete_queues w (u32 q))
