-- ===== src/Driver/Ring/Arrive.antt =====
-- The loop that prints the samples, with frames that arrive between its calls.
use mathlib.Core.List.{append-nil, append_assoc}
use defrizer.Common.{
  ℕ, suc, ◌+◌, ◌≡◌, refl, sym, ◌∙◌, arith, ◌⊎◌, inl, inr, List, [], ◌∷◌, ◌++◌, some, length,
  length-append, Option,
}
use defrizer.Endian.{Endian}
use defrizer.Memory.{XdpMd, IsPlaced}
use defrizer.Program.Event.{EventHelpers}
use defrizer.Driver.Events.{Host, samples}
use defrizer.Driver.Xsk.{All}
use defrizer.Driver.Ring.Due.{arrivals-due}
use defrizer.Driver.Ring.{IsRing, Scene, next, later, arrivals, amid, shared}

abbrev pub ArePlaced : List (List XdpMd) → Type 0
ArePlaced = All (All IsPlaced)

next-ArePlaced : (batches : List (List XdpMd)) → ArePlaced batches → All IsPlaced (next batches)
next-ArePlaced [] placed = tt
next-ArePlaced (batch ∷ batches) placed = placed.0

later-ArePlaced : (batches : List (List XdpMd)) → ArePlaced batches → ArePlaced (later batches)
later-ArePlaced [] placed = tt
later-ArePlaced (batch ∷ batches) placed = placed.1

length-snoc : {A : Type 0} (xs : List A) (x : A) → length (xs ++ x ∷ []) ≡ length xs + 1
length-snoc xs x = ground (arith, length-append xs (x ∷ []))

module _ {W P R E : Type 0} {g : EventHelpers W} {h : Host W P R E} {stored : List ℕ → List ℕ}
    {queue : W → List (List ℕ)} (ring : IsRing g h stored queue) where
  -- What is due was printed or waits, in order.
  abbrev IsEven : Scene W → Type 0
  IsEven s = s.sent ≡ s.printed ++ queue s.world

  -- Once the next frames have arrived, nothing waits, and all that is due was printed.
  abbrev pub IsDrained : Endian → Scene W → Type 0
  IsDrained e s =
      (fresh : List (List ℕ)) × (w : W) × (arrivals g e stored (next s.coming) s.world
        ≡ some (fresh, w))
      × (queue w ≡ [])
      × (s.sent ++ fresh ≡ s.printed)

  -- The states of the loop behind a number of rounds.
  abbrev pub Reaches : Endian → R → ℕ → Scene W → Scene W → Type 0
  Reaches e rd m s s' =
      (fuel : ℕ)
      → samples (shared g e stored h) (m + fuel) rd s ≡ samples (shared g e stored h) fuel rd s'

  -- A call behind its batch.
  amid_lem :
      {A : Type 0} (e : Endian) (call : W → Option (A × W))
      (shown : A → List (List ℕ) → List (List ℕ)) (s : Scene W) (fresh : List (List ℕ)) (a : A)
      (w1 w2 : W)
      → arrivals g e stored (next s.coming) s.world ≡ some (fresh, w1)
      → call w1 ≡ some (a, w2)
      → amid g e stored call shown s
        ≡ some (
          a,
          record {
            world = w2;
            coming = later s.coming;
            sent = s.sent ++ fresh;
            printed = shown a s.printed;
          },
        )
  unfolding amid
  amid_lem e call shown s fresh a w1 w2 came called = rw (amid, came, called) refl

  samples_step :
      (e : Endian) (fuel : ℕ) (rd : R) (s s1 s2 : Scene W) (sample : List ℕ)
      → (shared g e stored h).read rd s ≡ some (inr sample, s1)
      → (shared g e stored h).println sample s1 ≡ some (tt, s2)
      → samples (shared g e stored h) (suc fuel) rd s ≡ samples (shared g e stored h) fuel rd s2
  unfolding samples
  samples_step e fuel rd s s1 s2 sample taken shown = rw (samples, taken, shown) refl

  -- One round, or none if all was printed.
  abbrev Rounds : Endian → R → Scene W → Type 0
  Rounds e rd s =
      (s' : Scene W) × ((fuel : ℕ)
        → samples (shared g e stored h) (suc fuel) rd s ≡ samples (shared g e stored h) fuel rd s')
      × ArePlaced (s'.coming)
      × IsEven s'
      × (length (s'.printed) ≡ length s.printed + 1)

  round :
      (e : Endian) (rd : R) (s : Scene W)
      → ArePlaced s.coming
      → IsEven s
      → IsDrained e s ⊎ Rounds e rd s
  unfolding shared
  round e rd s placed even =
      let (fresh, w1, came, waits) =
        arrivals-due ring e (next s.coming) s.world (next-ArePlaced s.coming placed) in
      let all : s.sent ++ fresh ≡ s.printed ++ queue w1 =
        rw (even, waits) (append_assoc s.printed (queue s.world) fresh) in
      behind fresh w1 came all (queue w1) refl
    where
      behind :
          (fresh : List (List ℕ)) (w1 : W)
          → arrivals g e stored (next s.coming) s.world ≡ some (fresh, w1)
          → s.sent ++ fresh ≡ s.printed ++ queue w1
          → (waiting : List (List ℕ)) → queue w1 ≡ waiting
          → IsDrained e s ⊎ Rounds e rd s
      behind fresh w1 came all [] none_waits =
          inl (fresh, w1, came, none_waits, rw (all, none_waits) (append-nil s.printed))
      behind fresh w1 came all (sample ∷ rest) waits =
          let (w2, taken, left) = ring.read_takes rd w1 sample rest waits in
          let placed' = later-ArePlaced s.coming placed in
          let (fresh', w3, came', added) =
            arrivals-due ring e (next (later s.coming)) w2
              (next-ArePlaced (later s.coming) placed') in
          let (w4, shown, kept) = ring.println_leaves sample w3 in
          let s1 : Scene W = record {
            world = w2;
            coming = later s.coming;
            sent = s.sent ++ fresh;
            printed = s.printed;
          } in
          let s2 : Scene W = record {
            world = w4;
            coming = later (later s.coming);
            sent = (s.sent ++ fresh) ++ fresh';
            printed = s.printed ++ sample ∷ [];
          } in
          let first = amid_lem e (h.read rd) (λ _ l. l) s fresh (inr sample) w1 w2 came taken in
          let second =
            amid_lem e (h.println sample) (λ _ l. l ++ sample ∷ []) s1 fresh' tt w3 w4 came'
              shown in
          inr (
            s2,
            (λ fuel. samples_step e fuel rd s s1 s2 sample first second),
            later-ArePlaced (later s.coming) placed',
            rw (all, waits, kept, added, left)
                (append_assoc s.printed (sample ∷ rest) fresh'
                  ∙ sym (append_assoc s.printed (sample ∷ []) (rest ++ fresh'))),
            length-snoc s.printed sample,
          )

  -- The loop from any such state.
  abbrev Prints : Endian → R → ℕ → Scene W → Type 0
  Prints e rd n s =
      (m : ℕ) × (s' : Scene W) × Reaches e rd m s s'
      × IsEven s'
      × (length (s'.printed) ≡ length s.printed + m)
      × ((m ≡ n) ⊎ IsDrained e s')
