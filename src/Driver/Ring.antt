-- ===== src/Driver/Ring.antt =====
-- The ring buffer between `perf_event_test` and the loop of perf_event/src/dumpframes.go.
pub mod Due
pub mod Arrive
use Prim.Native.String.{String}
use mathlib.Core.List.{append-nil, append_assoc}
use defrizer.Common.{
  ℕ, suc, ◌≡◌, ◌≢◌, refl, sym, ap, ◌∙◌, arith, inl, inr, List, [], ◌∷◌, ◌++◌, some, none, length,
  ◌==◌, if◌then◌else◌, ◌==ℤ◌, Option, ℤ, u32,
}
use defrizer.Endian.{Endian}
use defrizer.Uapi.{linux, linux-IsLayout}
use defrizer.Memory.{XdpMd, IsPlaced}
use defrizer.Spec.Layers.{be16, Verdict, runt, other, broken_tcp, segment, classify}
use defrizer.Spec.Policy.{event_policy, announced, traced}
use defrizer.Program.Action.{pass, action_code}
use defrizer.Program.Event.{EventHelpers, hello, perf_event_test}
use defrizer.Program.Event.Refine.{perf_event_test_refines}
use defrizer.Driver.Events.{Host, samples}
use defrizer.Driver.{Run, pure}

-- The documented behaviour of the ring buffer, whose records that are not read are `queue`: an output
-- that succeeds appends a record, a read takes the first one, and nothing else changes it. A record is
-- read as `stored` gives it, which may pad it with zeros.
pub record IsRing {W P R E : Type 0} (g : EventHelpers W) (h : Host W P R E)
    (stored : List ℕ → List ℕ) (queue : W → List (List ℕ)) : Type 0 where
  pub trace_leaves :
      (w : W) (fmt : String) (size : ℕ) (args : List ℕ)
      → queue (g.trace_printk w fmt size args) ≡ queue w
  pub output_appends :
      (w : W) (bytes : List ℕ)
      → u32 ((g.ringbuf_output w bytes (length bytes) 0).0) ≡ 0
      → queue ((g.ringbuf_output w bytes (length bytes) 0).1) ≡ queue w ++ stored bytes ∷ []
  pub output_fails :
      (w : W) (bytes : List ℕ)
      → u32 ((g.ringbuf_output w bytes (length bytes) 0).0) ≢ 0
      → queue ((g.ringbuf_output w bytes (length bytes) 0).1) ≡ queue w
  pub read_takes :
      (rd : R) (w : W) (sample : List ℕ) (rest : List (List ℕ))
      → queue w ≡ sample ∷ rest
      → (w' : W) × (h.read rd w ≡ some (inr sample, w')) × (queue w' ≡ rest)
  pub println_leaves :
      (sample : List ℕ) (w : W)
      → (w' : W) × (h.println sample w ≡ some (tt, w')) × (queue w' ≡ queue w)

-- The greeting that is due for a frame, by its verdict and the code that the program returned: one
-- for a segment to the port that passed.
unfoldable pub due : (List ℕ → List ℕ) → Verdict → ℤ → List (List ℕ)
due stored (segment xs) ret =
    if be16 xs (linux.tcphdr_dest) == 7777
    then (if ret ==ℤ action_code pass then stored hello ∷ [] else [])
    else []
due _ _ _ = []

-- The world with the frames that are to arrive before the next calls, a batch for each, the greetings
-- that became due, and the samples that were printed.
pub record Scene (W : Type 0) : Type 0 where
  pub world : W
  pub coming : List (List XdpMd)
  pub sent : List (List ℕ)
  pub printed : List (List ℕ)

abbrev pub next : List (List XdpMd) → List XdpMd
next [] = []
next (batch ∷ batches) = batch

abbrev pub later : List (List XdpMd) → List (List XdpMd)
later [] = []
later (batch ∷ batches) = batches

module _ {W : Type 0} (g : EventHelpers W) (e : Endian) (stored : List ℕ → List ℕ) where
  -- `perf_event_test` on each frame of a batch, with the greetings that become due.
  unfoldable pub arrivals : List XdpMd → Run W (List (List ℕ))
  arrivals [] w = some ([], w)
  arrivals (md ∷ mds) w = elim (perf_event_test g linux e md w) [
    | none ↦ none
    | some (ret, w') ↦ elim (arrivals mds w') [
      | none ↦ none
      | some (more, w'') ↦ some (due stored (classify linux md.frame) ret ++ more, w'')
    ]
  ]

  -- A call behind the batch of frames that arrives before it.
  unfoldable pub amid :
      {A : Type 0} → Run W A → (A → List (List ℕ) → List (List ℕ)) → Run (Scene W) A
  amid call shown s = elim (arrivals (next s.coming) s.world) [
    | none ↦ none
    | some (fresh, w) ↦ elim (call w) [
      | none ↦ none
      | some (a, w') ↦ some (
        a,
        record {
          world = w';
          coming = later s.coming;
          sent = s.sent ++ fresh;
          printed = shown a s.printed;
        },
      )
    ]
  ]

  -- The host `h`, where frames arrive before every call.
  unfoldable pub shared : {P R E : Type 0} → Host W P R E → Host (Scene W) P R E
  shared h = record {
    remove_memlock = amid h.remove_memlock (λ _ l. l);
    interfaces = amid h.interfaces (λ _ l. l);
    new_program = amid h.new_program (λ _ l. l);
    close = λ p. amid (h.close p) (λ _ l. l);
    attach = λ p i. amid (h.attach p i) (λ _ l. l);
    detach = λ p i. amid (h.detach p i) (λ _ l. l);
    new_reader = λ p. amid (h.new_reader p) (λ _ l. l);
    close_reader = λ rd. amid (h.close_reader rd) (λ _ l. l);
    read = λ rd. amid (h.read rd) (λ _ l. l);
    println = λ sample. amid (h.println sample) (λ _ l. l ++ sample ∷ []);
  }
