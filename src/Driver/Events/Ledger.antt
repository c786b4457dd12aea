-- ===== src/Driver/Events/Ledger.antt =====
-- A ledger of what `main` of perf_event/src/dumpframes.go holds, reads and prints.
use defrizer.Common.{ℕ, ◌⊎◌, inl, inr, List, [], ◌∷◌, ◌++◌, Option, none, some}
use defrizer.Driver.Held.{Held, Resource, program, reader, link, take_up, give_back}
use defrizer.Driver.Track.{noting}
use defrizer.Driver.Events.{Host}

pub record Ledger : Type 0 where
  pub held : Held
  -- the samples that were read and those that were printed, in order
  pub sampled : List (List ℕ)
  pub shown : List (List ℕ)

abbrev pub blank : Ledger
blank = record { held = some []; sampled = []; shown = [] }

abbrev pub holding : Resource → Ledger → Ledger
holding r l = record l { held = take_up r l.held }

abbrev pub dropping : Resource → Ledger → Ledger
dropping r l = record l { held = give_back r l.held }

module _ {E : Type 0} where
  -- Something is taken up, if there is no error.
  abbrev pub taken : Resource → Option E → Ledger → Ledger
  taken r none l = holding r l
  taken r (some err) l = l

  abbrev pub opened : {A : Type 0} → Resource → E ⊎ A → Ledger → Ledger
  opened r (inl err) l = l
  opened r (inr a) l = holding r l

  abbrev pub sampling : E ⊎ List ℕ → Ledger → Ledger
  sampling (inl err) l = l
  sampling (inr sample) l = record l { sampled = l.sampled ++ sample ∷ [] }

abbrev pub showing : List ℕ → Ledger → Ledger
showing sample l = record l { shown = l.shown ++ sample ∷ [] }

-- The same calls, with the ledger.
unfoldable pub tracked : {W P R E : Type 0} → Host W P R E → Host (W × Ledger) P R E
tracked h = record {
  remove_memlock = noting h.remove_memlock (λ _ l. l);
  interfaces = noting h.interfaces (λ _ l. l);
  new_program = noting h.new_program (opened program);
  close = λ p. noting (h.close p) (λ _. dropping program);
  attach = λ p i. noting (h.attach p i) (taken (link i));
  detach = λ p i. noting (h.detach p i) (λ _. dropping (link i));
  new_reader = λ p. noting (h.new_reader p) (opened reader);
  close_reader = λ rd. noting (h.close_reader rd) (λ _. dropping reader);
  read = λ rd. noting (h.read rd) sampling;
  println = λ sample. noting (h.println sample) (λ _. showing sample);
}
