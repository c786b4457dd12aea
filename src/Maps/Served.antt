-- ===== src/Maps/Served.antt =====
-- Enabled queues and their sockets, in the states that calls of the loader and packets lead to.
use defrizer.Common.{
  ℕ, ◌≡◌, ◌≢◌, refl, arith, ◌∙◌, inl, inr, true, Option, none, some, Bool-cases, Option-cases, ◌==◌,
  ℤ, u32,
}
use defrizer.Endian.{Endian}
use defrizer.Uapi.{linux, linux-IsLayout}
use defrizer.Memory.{XdpMd, IsPlaced}
use defrizer.Program.Sock.{SockHelpers, xdp_sock_prog}
use defrizer.Program.Sock.Refine.{xdp_sock_prog_refines}
use defrizer.Spec.Layers.{be16, Verdict, runt, other, broken_tcp, segment, classify}
use defrizer.Spec.Policy.{sock_policy, sock_spec}
use defrizer.Maps.{MapCalls, ProgramError, loaded, register, unregister}
use defrizer.Maps.Kernel.{MapView, IsKernel}
use defrizer.Maps.Outcome.{register-cases, unregister_lem}

-- Every queue that is enabled has a socket.
unfoldable pub IsServed : {W : Type 0} → MapView W → W → Type 0
IsServed v w = (i : ℕ) → v.entry w i ≢ 0 → (s : ℕ) × (v.socket w i ≡ some s)

-- Where the loader stands: between two calls, or between the two updates of a `Register`.
pub data Phase : Type 0 where
  idle : Phase
  enabling : ℕ → Phase

-- One call of the loader, one of the two updates of a `Register` that packets interrupt, or one
-- packet in the redirecting program.
pub data Step {W : Type 0} (k : MapCalls W) (h : SockHelpers W) (program queues sockets : ℕ) (w : W)
    : Phase → Phase → W → Type 0 where
  registering :
      (queue_id fd : ℕ) (r : Option ProgramError) {w' : W}
      → register k (loaded program queues sockets) queue_id fd w ≡ some (r, w')
      → Step k h program queues sockets w idle idle w'
  storing :
      (queue_id fd : ℕ) {w' : W}
      → k.put w sockets (u32 queue_id) (u32 fd) ≡ (none, w')
      → Step k h program queues sockets w idle (enabling queue_id) w'
  finishing :
      (queue_id : ℕ) (failure : Option ℕ) {w' : W}
      → k.put w queues (u32 queue_id) 1 ≡ (failure, w')
      → Step k h program queues sockets w (enabling queue_id) idle w'
  unregistering :
      (queue_id : ℕ) (r : Option ProgramError) {w' : W}
      → unregister k (loaded program queues sockets) queue_id w ≡ some (r, w')
      → Step k h program queues sockets w idle idle w'
  receiving :
      (e : Endian) (md : XdpMd) (ret : ℤ) (phase : Phase) {w' : W}
      → IsPlaced md
      → xdp_sock_prog h linux e md w ≡ some (ret, w')
      → Step k h program queues sockets w phase phase w'

-- The states that lead from `w0`.
pub data Reach {W : Type 0} (k : MapCalls W) (h : SockHelpers W) (program queues sockets : ℕ)
    (w0 : W) : Phase → W → Type 0 where
  start : Reach k h program queues sockets w0 idle w0
  later :
      {phase phase' : Phase} {w w' : W}
      → Reach k h program queues sockets w0 phase w
      → Step k h program queues sockets w phase phase' w'
      → Reach k h program queues sockets w0 phase' w'

module _ {W : Type 0} {k : MapCalls W} {h : SockHelpers W} {v : MapView W} {queues sockets : ℕ}
    (kernel : IsKernel k h v queues sockets) where
  -- Both views of a queue unchanged.
  abbrev Same : W → W → ℕ → Type 0
  Same w w' j = (v.entry w' j ≡ v.entry w j) × (v.socket w' j ≡ v.socket w j)

  Same-IsServed : (w w' : W) → ((j : ℕ) → Same w w' j) → IsServed v w → IsServed v w'
  unfolding IsServed
  Same-IsServed w w' same served j ne =
      let (s, found) = served j (λ z. ne ((same j).0 ∙ z)) in (s, (same j).1 ∙ found)

  put_sockets-IsServed :
      (w w' : W) (i x : ℕ) → k.put w sockets i x ≡ (none, w') → IsServed v w → IsServed v w'
  unfolding IsServed
  put_sockets-IsServed w w' i x p served j ne = elim (Bool-cases (j == i)) [
    | inl same ↦ (x, rw ((kernel.put_sockets w w' i x p j).1, same))
    | inr apart ↦
        let (s, found) = served j (λ z. ne ((kernel.put_sockets w w' i x p j).0 ∙ z)) in
        (s, rw ((kernel.put_sockets w w' i x p j).1, apart) found)
  ]

  put_queues-IsServed :
      (w w' : W) (i x s : ℕ)
      → k.put w queues i x ≡ (none, w')
      → v.socket w i ≡ some s
      → IsServed v w
      → IsServed v w'
  unfolding IsServed
  put_queues-IsServed w w' i x s p found served j ne = elim (Bool-cases (j == i)) [
    | inl same ↦
        let at_i : j ≡ i = ground arith in (s, cc ((kernel.put_queues w w' i x p j).1, at_i, found))
    | inr apart ↦
        let (s', f) = served j (λ z. ne (rw ((kernel.put_queues w w' i x p j).0, apart) z)) in
        (s', (kernel.put_queues w w' i x p j).1 ∙ f)
  ]

  -- The socket that a successful update has stored.
  pub put_sockets-socket :
      (w w' : W) (i x : ℕ) → k.put w sockets i x ≡ (none, w') → v.socket w' i ≡ some x
  put_sockets-socket w w' i x p =
      let same : (i == i) ≡ true = ground arith in rw ((kernel.put_sockets w w' i x p i).1, same)

  pub register-IsServed :
      (program q fd : ℕ) (w w' : W) (r : Option ProgramError)
      → register k (loaded program queues sockets) q fd w ≡ some (r, w')
      → IsServed v w
      → IsServed v w'
  register-IsServed program q fd w w' r h' served =
      elim (register-cases k program kernel q fd w w' r h') [
        | inl (err, fails, same) ↦ rw same served
        | inr (inl (err, fails, p)) ↦ put_sockets-IsServed w w' (u32 q) (u32 fd) p served
        | inr (inr (w1, p1, p2)) ↦
            put_queues-IsServed w1 w' (u32 q) 1 (u32 fd) p2
              (put_sockets-socket w w1 (u32 q) (u32 fd) p1)
              (put_sockets-IsServed w w1 (u32 q) (u32 fd) p1 served)
      ]

  policy-Same :
      (md : XdpMd) (w : W) (q : ℕ) (verdict : Verdict) (j : ℕ)
      → Same w ((sock_policy h linux md w q verdict).1) j
  unfolding sock_policy
  policy-Same md w q runt j = (refl, refl)
  policy-Same md w q other j = (refl, refl)
  policy-Same md w q broken_tcp j = (refl, refl)
  policy-Same md w q (segment xs) j = elim (Bool-cases (be16 xs (linux.tcphdr_dest) == 7777)) [
    | inl port ↦ elim (Bool-cases (h.read_int w q == 0)) [
      | inl off ↦ rw (port, off) (refl, refl)
      | inr on ↦ rw (port, on) (kernel.redirect_maps w (u32 md.rx_queue_index) j)
    ]
    | inr not_port ↦ rw not_port (refl, refl)
  ]

  spec-Same : (md : XdpMd) (w : W) (j : ℕ) → Same w ((sock_spec h linux md w).1) j
  unfolding sock_spec
  spec-Same md w j = elim (Option-cases (h.map_lookup_elem w (u32 md.rx_queue_index))) [
    | inl absent ↦ rw (absent, sock_spec) (refl, refl)
    | inr (q, found) ↦ rw (found, sock_spec) (policy-Same md w q (classify linux md.frame) j)
  ]

  -- The socket that an interrupted `Register` has stored.
  abbrev IsStored : Phase → W → Type 0
  IsStored phase w = (q : ℕ) → phase ≡ enabling q → (s : ℕ) × (v.socket w (u32 q) ≡ some s)

  finishing-IsServed :
      (q s : ℕ) (failure : Option ℕ) (w w' : W)
      → k.put w queues (u32 q) 1 ≡ (failure, w')
      → v.socket w (u32 q) ≡ some s
      → IsServed v w
      → IsServed v w'
  finishing-IsServed q s none w w' p found served =
      put_queues-IsServed w w' (u32 q) 1 s p found served
  finishing-IsServed q s (some err) w w' p found served =
      rw (kernel.put_fails w w' queues (u32 q) 1 err p) served

  receiving-Same :
      (e : Endian) (md : XdpMd) (ret : ℤ) (w w' : W)
      → IsPlaced md
      → xdp_sock_prog h linux e md w ≡ some (ret, w')
      → (j : ℕ) → Same w w' j
  receiving-Same e md ret w w' placed p j =
      let same : w' ≡ (sock_spec h linux md w).1 =
        cc (p, xdp_sock_prog_refines h e md w linux-IsLayout placed) in
      rw same (spec-Same md w j)

  Step-IsServed :
      (program : ℕ) {phase phase' : Phase} {w w' : W}
      → Step k h program queues sockets w phase phase' w'
      → IsServed v w × IsStored phase w
      → IsServed v w' × IsStored phase' w'
  Step-IsServed program {w} {w'} (registering q fd r p) (served, at) =
      (register-IsServed program q fd w w' r p served, λ q' z. cc z)
  Step-IsServed program {w} {w'} (storing q fd p) (served, at) = (
    put_sockets-IsServed w w' (u32 q) (u32 fd) p served,
    λ q' z.
        let same : q' ≡ q = cc z in (u32 fd, rw same (put_sockets-socket w w' (u32 q) (u32 fd) p)),
  )
  Step-IsServed program {w} {w'} (finishing q failure p) (served, at) =
      let (s, found) = at q refl in
      (finishing-IsServed q s failure w w' p found served, λ q' z. cc z)
  Step-IsServed program {w} {w'} (unregistering q r p) (served, at) =
      let same : w' ≡ w = cc (p, unregister_lem k program kernel q w) in
      (rw same served, λ q' z. cc z)
  Step-IsServed program {w} {w'} (receiving e md ret phase placed p) (served, at) = (
    Same-IsServed w w' (receiving-Same e md ret w w' placed p) served,
    λ q z.
        let (s, found) = at q z in (s, (receiving-Same e md ret w w' placed p (u32 q)).1 ∙ found),
  )

  Reach-Step :
      (program : ℕ) {w0 : W} {phase : Phase} {w : W}
      → ((i : ℕ) → v.entry w0 i ≡ 0)
      → Reach k h program queues sockets w0 phase w
      → IsServed v w × IsStored phase w
  unfolding IsServed
  Reach-Step program off start = (λ i ne. absurd (ne (off i)), λ q z. cc z)
  Reach-Step program off (later reach step) =
      Step-IsServed program step (Reach-Step program off reach)

  -- From a state in which no queue is enabled, no sequence of calls and packets leads to an enabled
  -- queue without a socket.
  pub Reach-IsServed :
      (program : ℕ) {w0 : W} {phase : Phase} {w : W}
      → ((i : ℕ) → v.entry w0 i ≡ 0)
      → Reach k h program queues sockets w0 phase w
      → IsServed v w
  Reach-IsServed program off reach = (Reach-Step program off reach).0
