-- ===== src/Driver/Xsk.antt =====
-- The AF_XDP socket between `xdp_sock_prog` and the loop of dumpframes/src/dumpframes.go: what the loop
-- relies on of the kernel and of the socket library. Frames may arrive during any call.
pub mod Sync
pub mod Shown
use defrizer.Common.{ℕ, ◌≡◌, ◌<◌, List, [], ◌∷◌, ◌++◌, map, Bool, true, Option, ℤ}
use defrizer.Program.Sock.{SockHelpers}
use defrizer.Program.Redirects.{Redirected}
use defrizer.Driver.Ensures.{Ensures}
use defrizer.Driver.Frames.{Host, Line}

-- What can be seen of the state: the frames that were put into the Rx ring from the start on, those
-- of them that were not received yet, the descriptors that were received and not given back to the
-- Fill ring, and the frame at a descriptor.
pub record XskView (W D : Type 0) : Type 0 where
  pub delivered : W → List (List ℕ)
  pub queue : W → List (List ℕ)
  pub owned : W → List D
  pub umem : W → D → List ℕ

abbrev pub All : {A : Type 0} → (A → Type 0) → List A → Type 0
All P [] = Unit {0}
All P (x ∷ xs) = P x × All P xs

module _ {W D : Type 0} (b : SockHelpers W) (v : XskView W D) where
  -- Frames that the program redirects join the Rx ring while a call runs.
  pub record Grows (w w' : W) : Type 0 where
    pub added : List (List ℕ)
    pub delivered_grows : v.delivered w' ≡ v.delivered w ++ added
    pub queue_grows : v.queue w' ≡ v.queue w ++ added
    pub answered : All (Redirected b) added

  -- The kernel writes to no descriptor that was received.
  pub record Leaves (w w' : W) : Type 0 where
    pub owned_same : v.owned w' ≡ v.owned w
    pub umem_same : All (λ d. v.umem w' d ≡ v.umem w d) (v.owned w)

  -- The frames of the descriptors that `Receive` returns are the first of the Rx ring.
  pub record Received (ds : List D) (w w' : W) : Type 0 where
    pub added : List (List ℕ)
    pub delivered_grows : v.delivered w' ≡ v.delivered w ++ added
    pub answered : All (Redirected b) added
    pub taken : v.queue w ++ added ≡ map (v.umem w') ds ++ v.queue w'
    pub owned_grows : v.owned w' ≡ v.owned w ++ ds

-- The calls of the loop, with the socket `s`.
pub record IsXsk {W P S D E : Type 0} (b : SockHelpers W) (h : Host W P S D E) (s : S)
    (v : XskView W D) : Type 0 where
  pub slots_grows : (w : W) → Ensures (λ _ w'. Grows b v w w') (h.num_free_fill_slots s w)
  pub descs_grows :
      (n : ℕ) (rx : Bool) (w : W) → Ensures (λ _ w'. Grows b v w w') (h.get_descs s n rx w)
  pub fill_grows : (ds : List D) (w : W) → Ensures (λ _ w'. Grows b v w w') (h.fill s ds w)
  pub poll_grows : (t : ℤ) (w : W) → Ensures (λ _ w'. Grows b v w w') (h.poll s t w)
  pub receive_takes : (n : ℕ) (w : W) → Ensures (λ ds w'. Received b v ds w w') (h.receive s n w)
  pub frame_reads :
      (d : D) (before behind : List D) (w : W)
      → v.owned w ≡ before ++ (d ∷ behind)
      → Ensures (λ f w'. (f ≡ v.umem w d) × Grows b v w w' × Leaves b v w w') (h.get_frame s d w)
  pub printf_leaves :
      (x : Line) (w : W) → Ensures (λ _ w'. Grows b v w w' × Leaves b v w w') (h.printf x w)
