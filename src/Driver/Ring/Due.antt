-- ===== src/Driver/Ring/Due.antt =====
-- What a batch of frames leaves in the ring buffer.
use mathlib.Core.List.{append-nil, append_assoc}
use defrizer.Common.{
  ℕ, ◌≡◌, refl, sym, ap, ◌∙◌, arith, inl, inr, List, [], ◌∷◌, ◌++◌, some, Bool-cases, ◌==◌, u32, ℤ,
}
use defrizer.Endian.{Endian}
use defrizer.Uapi.{linux, linux-IsLayout}
use defrizer.Memory.{XdpMd, IsPlaced}
use defrizer.Spec.Layers.{be16, Verdict, runt, other, broken_tcp, segment, classify}
use defrizer.Spec.Policy.{event_policy, announced, traced}
use defrizer.Program.Action.{action_code}
use defrizer.Program.Event.{EventHelpers, hello, perf_event_test}
use defrizer.Program.Event.Refine.{perf_event_test_refines}
use defrizer.Driver.Events.{Host}
use defrizer.Driver.Xsk.{All}
use defrizer.Driver.Ring.{IsRing, due, arrivals}

module _ {W P R E : Type 0} {g : EventHelpers W} {h : Host W P R E} {stored : List ℕ → List ℕ}
    {queue : W → List (List ℕ)} (ring : IsRing g h stored queue) where
  policy-due :
      (e : Endian) (w : W) (verdict : Verdict)
      → queue ((event_policy g linux e w verdict).1)
        ≡ queue w ++ due stored verdict ((event_policy g linux e w verdict).0)
  unfolding event_policy due announced traced action_code
  policy-due e w runt = sym (append-nil (queue w))
  policy-due e w other = sym (append-nil (queue w))
  policy-due e w broken_tcp = sym (append-nil (queue w))
  policy-due e w (segment xs) =
      let w1 = traced g linux e w xs in
      let kept : queue w1 ≡ queue w = ring.trace_leaves w _ _ _ in
      elim (Bool-cases (be16 xs (linux.tcphdr_dest) == 7777)) [
        | inr elsewhere ↦ rw (elsewhere, kept) (sym (append-nil (queue w)))
        | inl port ↦ elim (Bool-cases (u32 ((g.ringbuf_output w1 hello 7 0).0) == 0)) [
          | inl done ↦
              let added = ring.output_appends w1 hello (ground arith) in
              rw (port, done, added, kept) refl
          | inr failed ↦
              let same = ring.output_fails w1 hello (ground arith) in
              rw (port, failed, same, kept) (sym (append-nil (queue w)))
        ]
      ]

  arriving-due :
      (e : Endian) (md : XdpMd) (w : W)
      → IsPlaced md
      → (ret : ℤ) × (w' : W) × (perf_event_test g linux e md w ≡ some (ret, w'))
        × (queue w' ≡ queue w ++ due stored (classify linux md.frame) ret)
  arriving-due e md w placed = (
    _,
    _,
    perf_event_test_refines g e md w linux-IsLayout placed,
    policy-due e w (classify linux md.frame),
  )

  pub arrivals-due :
      (e : Endian) (mds : List XdpMd) (w : W)
      → All IsPlaced mds
      → (fresh : List (List ℕ)) × (w' : W) × (arrivals g e stored mds w ≡ some (fresh, w'))
        × (queue w' ≡ queue w ++ fresh)
  unfolding arrivals
  arrivals-due e [] w placed = ([], w, refl, sym (append-nil (queue w)))
  arrivals-due e (md ∷ mds) w placed =
      let (ret, w1, ran, added) = arriving-due e md w (placed.0) in
      let (more, w2, ran', added') = arrivals-due e mds w1 (placed.1) in
      let first = due stored (classify linux md.frame) ret in
      (
        first ++ more,
        w2,
        rw (arrivals, ran, ran') refl,
        added' ∙ (ap (λ xs. xs ++ more) added ∙ append_assoc (queue w) first more),
      )
