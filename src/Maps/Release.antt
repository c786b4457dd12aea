-- ===== src/Maps/Release.antt =====
-- `Close` of dumpframes/program.go and of perf_event/program.go against a plain list of closes.
use mathlib.Core.List.{append-nil, append_assoc}
use defrizer.Common.{
  call-cases, ℕ, ◌≡◌, refl, sym, ap, ◌∙◌, inl, inr, List, [], ◌∷◌, ◌++◌, Option, none, some,
}
use defrizer.Maps.{
  MapCalls, LoadedProgram, ProgramError, failed_to_close_xsks_map, failed_to_close_qidconf_map,
  failed_to_close_program, close_handle, first_error, close,
}
use defrizer.Maps.Ring.{EventProgram, close_event_program}

-- A handle that is not nil, with the error that its failure is wrapped in.
unfoldable pub handle : (ℕ → ProgramError) → Option ℕ → List ((ℕ → ProgramError) × ℕ)
handle wrap none = []
handle wrap (some fd) = (wrap, fd) ∷ []

-- What a program holds, in the order in which it is to be given back.
unfoldable pub handles : LoadedProgram → List ((ℕ → ProgramError) × ℕ)
handles p =
    handle failed_to_close_xsks_map p.sockets
    ++ (handle failed_to_close_qidconf_map p.queues ++ handle failed_to_close_program p.program)

unfoldable pub event_handles : EventProgram → List ((ℕ → ProgramError) × ℕ)
event_handles p =
    handle failed_to_close_xsks_map p.events ++ handle failed_to_close_program p.program

-- The error that stands first, if any.
abbrev pub earliest : List ProgramError → Option ProgramError
earliest [] = none
earliest (err ∷ later) = some err

earliest_lem : (errs : List ProgramError) → first_error errs ≡ earliest errs
unfolding first_error
earliest_lem [] = refl
earliest_lem (err ∷ later) = refl

abbrev pub empty : LoadedProgram
empty = record { program = none; queues = none; sockets = none }

-- The error that a close adds.
unfoldable pub outcome : (ℕ → ProgramError) → Option ℕ → List ProgramError
outcome wrap none = []
outcome wrap (some err) = wrap err ∷ []

module _ {W : Type 0} (k : MapCalls W) where
  -- Every handle is closed, in turn, whatever the others return; the errors are collected in order.
  unfoldable pub closes : List ((ℕ → ProgramError) × ℕ) → W → List ProgramError × W
  closes [] w = ([], w)
  closes ((wrap, fd) ∷ hs) w =
      let (failure, w') = k.close w fd in
      let (errs, w'') = closes hs w' in (outcome wrap failure ++ errs, w'')

  closes-++ :
      (xs ys : List ((ℕ → ProgramError) × ℕ)) (w : W)
      → closes (xs ++ ys) w
        ≡ ((closes xs w).0 ++ (closes ys ((closes xs w).1)).0, (closes ys ((closes xs w).1)).1)
  unfolding closes
  closes-++ [] ys w = refl
  closes-++ ((wrap, fd) ∷ xs) ys w =
      let (failure, w') = k.close w fd in
      let after : List ProgramError = (closes ys ((closes xs w').1)).0 in
      ap (λ r. (outcome wrap failure ++ r.0, r.1)) (closes-++ xs ys w')
      ∙ ap (λ z. (z, (closes ys ((closes xs w').1)).1))
          (sym (append_assoc (outcome wrap failure) ((closes xs w').0) after))

  close_handle_lem :
      (wrap : ℕ → ProgramError) (o : Option ℕ) (errs : List ProgramError) (w : W)
      → close_handle k wrap o errs w
        ≡ (errs ++ (closes (handle wrap o) w).0, (closes (handle wrap o) w).1)
  unfolding closes close_handle handle outcome
  close_handle_lem wrap none errs w = rw (append-nil errs)
  close_handle_lem wrap (some fd) errs w = elim (call-cases (k.close w fd)) [
    | inl (err, w', p) ↦ rw (p, close_handle, p)
    | inr (w', p) ↦ rw (p, close_handle, p, append-nil errs)
  ]

  close_lem :
      (p : LoadedProgram) (w : W)
      → close k p w ≡ (first_error ((closes (handles p) w).0), empty, (closes (handles p) w).1)
  unfolding close handles
  close_lem p w =
      let first = closes (handle failed_to_close_xsks_map p.sockets) w in
      let second = closes (handle failed_to_close_qidconf_map p.queues) (first.1) in
      rw (
        close_handle_lem failed_to_close_xsks_map p.sockets [] w,
        close_handle_lem failed_to_close_qidconf_map p.queues (first.0) (first.1),
        close_handle_lem failed_to_close_program p.program (first.0 ++ second.0) (second.1),
        closes-++ (handle failed_to_close_xsks_map p.sockets)
            (handle failed_to_close_qidconf_map p.queues
              ++ handle failed_to_close_program p.program)
            w,
        closes-++ (handle failed_to_close_qidconf_map p.queues)
            (handle failed_to_close_program p.program) (first.1),
        append_assoc (first.0) (second.0)
            ((closes (handle failed_to_close_program p.program) (second.1)).0),
      )

  close_event_program_lem :
      (p : EventProgram) (w : W)
      → close_event_program k p w ≡ (
        first_error ((closes (event_handles p) w).0),
        record { program = none; events = none },
        (closes (event_handles p) w).1,
      )
  unfolding close_event_program event_handles
  close_event_program_lem p w =
      let first = closes (handle failed_to_close_xsks_map p.events) w in
      rw (
        close_handle_lem failed_to_close_xsks_map p.events [] w,
        close_handle_lem failed_to_close_program p.program (first.0) (first.1),
        closes-++ (handle failed_to_close_xsks_map p.events)
            (handle failed_to_close_program p.program) w,
      )

  -- `Close` of both variants gives back each handle that is not nil once, whatever the other closes
  -- return: that of dumpframes/program.go the sockets' map first, then the queues' map, and the program
  -- last, that of perf_event/program.go the ring buffer first and the program last. It returns the
  -- first error, or nil if there is none, and leaves no handle that could be closed again.
  pub close-eq-closes :
      (p : LoadedProgram) (q : EventProgram) (w : W)
      → (close k p w ≡ (earliest ((closes (handles p) w).0), empty, (closes (handles p) w).1))
        × (close_event_program k q w ≡ (
          earliest ((closes (event_handles q) w).0),
          record { program = none; events = none },
          (closes (event_handles q) w).1,
        ))
  close-eq-closes p q w = (
    close_lem p w ∙ rw (earliest_lem ((closes (handles p) w).0)) refl,
    close_event_program_lem q w ∙ rw (earliest_lem ((closes (event_handles q) w).0)) refl,
  )
