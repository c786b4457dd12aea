-- ===== src/Driver/Linked/Body.antt =====
-- The parts of `main` that both Go programs have, and the network link behind them.
use defrizer.Common.{ℕ, ◌≡◌, refl, ◌⊎◌, inl, inr, Bool, false, Option, none, some}
use defrizer.Link.{NetLinkCalls, LinkError}
use defrizer.Maps.{MapCalls}
use defrizer.Driver.{Run, and_then, deferring, Exit, program_failed, checked, pure, either}
use defrizer.Driver.Ensures.{
  anything, deferring-Ensures, Ensures, stuck, ensured, Ensures-bind, Ensures-map,
}
use defrizer.Driver.Linked.{Failure, wrapped, outcome, attach_handle, detach_link, of_link}
use defrizer.Driver.Linked.Free.{
  IsLink, FreeIfFailed, remove-Freed, attach-FreeIfFailed, attach_nil-FreeIfFailed,
}

outcome-Ensures :
    {W F G : Type 0} {Q : Option F → W → Type 0} {R : Option G → W → Type 0} (wrap : F → G)
    {o : Option (Option F × W)}
    → Ensures Q o
    → ((r : Option F) (w : W) → Q r w → R (wrapped wrap r) w)
    → Ensures R (outcome wrap o)
outcome-Ensures wrap stuck wider = stuck
outcome-Ensures wrap (ensured q) wider = ensured (wider _ _ q)

module _ {W : Type 0} {links : NetLinkCalls W} {maps : MapCalls W} {i : ℕ} {attached : W → Bool}
    (link_right : IsLink links maps i attached) where
  abbrev pub Free : {A : Type 0} → A → W → Type 0
  Free a w' = attached w' ≡ false

  -- `main` of both programs, from `Attach` on, with the rest of its body.
  pub attached_body-Free :
      {E A : Type 0} (looks : ℕ) (handle : Option ℕ) (fail : Failure E → A) (body : Run W A) (w : W)
      → Ensures Free (
          and_then (attach_handle links looks handle i w) λ failure.
            checked failure
              (λ err. pure (fail err))
              (deferring (detach_link {E = E} links looks i) body))
  attached_body-Free {E = E} {A = A} looks handle fail body w =
      Ensures-bind _ (attach_handle-FreeIfFailed handle) behind
    where
      after :
          {o : Option (Option LinkError × W)}
          → Ensures (FreeIfFailed link_right) o
          → Ensures (FreeIfFailed link_right) (outcome {G = Failure E} of_link o)
      after stuck = stuck
      after (ensured {a = none} q) = ensured tt
      after (ensured {a = some err} q) = ensured q

      attach_handle-FreeIfFailed :
          (handle : Option ℕ)
          → Ensures (FreeIfFailed link_right) (attach_handle {E = E} links looks handle i w)
      attach_handle-FreeIfFailed none = after (attach_nil-FreeIfFailed link_right looks w)
      attach_handle-FreeIfFailed (some fd) = after (attach-FreeIfFailed link_right looks fd w)

      detached : (w2 : W) → Ensures Free (detach_link {E = E} links looks i w2)
      detached w2 = outcome-Ensures of_link (remove-Freed link_right looks w2) λ r w' freed. freed.1

      behind :
          (r : Option (Failure E)) (w1 : W)
          → FreeIfFailed link_right r w1
          → Ensures Free (
              checked r
                (λ err. pure (fail err))
                (deferring (detach_link {E = E} links looks i) body)
                w1)
      behind (some err) w1 free = ensured free
      behind none w1 _ =
          deferring-Ensures (detach_link {E = E} links looks i) body (anything _)
            λ a w2 _. detached w2

  -- The program was not loaded, or the link has no XDP program.
  abbrev pub LoadFailedOrFree : {E : Type 0} → Exit (Failure E) → W → Type 0
  LoadFailedOrFree {E = E} exit w' =
      ((err : Failure E) × (exit ≡ program_failed err)) ⊎ (attached w' ≡ false)

  -- `main` of both programs, from `NewTCPSynProgram` on.
  pub loaded_body-Free :
      {E F P : Type 0} (new_program : Run W (Failure E ⊎ P)) (release : P → Run W F)
      (body : P → Run W (Exit (Failure E))) (w : W)
      → ((p : P) (w1 : W) → Ensures Free (body p w1))
      → ((p : P) (w1 : W) → attached w1 ≡ false → Ensures Free (release p w1))
      → Ensures LoadFailedOrFree (
          and_then
            (new_program w)
            λ r. either r (λ err. pure (program_failed err)) (λ p. deferring (release p) (body p)))
  loaded_body-Free {E = E} {P = P} new_program release body w frees keeps =
      Ensures-bind _ (anything (new_program w)) behind
    where
      behind :
          (r : Failure E ⊎ P) (w1 : W)
          → Unit {0}
          → Ensures LoadFailedOrFree
              (either r (λ err. pure (program_failed err)) (λ p. deferring (release p) (body p)) w1)
      behind (inl err) w1 _ = ensured (inl (err, refl))
      behind (inr p) w1 _ =
          deferring-Ensures (release p) (body p) (frees p w1)
            λ a w2 free. Ensures-map (keeps p w2 free) λ b w3 still. inr still
