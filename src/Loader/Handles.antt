-- ===== src/Loader/Handles.antt =====
-- The handles that `NewProgram` of dumpframes/program.go makes, and what becomes of them.
use Prim.Native.String.{String}
use defrizer.Common.{ℕ, ◌≡◌, refl, ◌∙◌, ◌⊎◌, inl, inr, List, [], ◌∷◌, ◌++◌, some, u32}
use defrizer.Driver.{pure, ◌>>=◌, either}
use defrizer.Driver.Track.{noting}
use defrizer.Driver.Returns.{
  Returns, returns, Returns-bind, Returns-result, noting-Returns, Whatever,
}
use defrizer.Bytecode.{Instruction, xsk_ebpf}
use defrizer.Maps.{BpfMapDef, map_type_array, map_type_xskmap, LoadedProgram, loaded}
use defrizer.Loader.{
  EbpfCalls, LoadError, qidconf_map_failed, xsks_map_failed, new_program_failed, map_of_ints,
  new_program,
}

-- A handle joins the record of those that were made.
abbrev made : {E : Type 0} → E ⊎ ℕ → List ℕ → List ℕ
made (inl err) l = l
made (inr fd) l = l ++ fd ∷ []

unfoldable pub recorded : {W E S O : Type 0} → EbpfCalls W E S O → EbpfCalls (W × List ℕ) E S O
recorded c = record {
  new_map = λ name spec. noting (c.new_map name spec) made;
  new_program = λ code. noting (c.new_program code) made;
  load_collection = λ fname. noting (c.load_collection fname) (λ _ l. l);
  load_tcpsyn = noting c.load_tcpsyn (λ _ l. l);
  load_and_assign = λ spec. noting (c.load_and_assign spec) (λ _ l. l);
}

-- The calls that make a handle come back.
pub record Makes {W E S O : Type 0} (c : EbpfCalls W E S O) : Type 0 where
  pub new_map_back :
      (name : String) (spec : BpfMapDef) (w : W) → Returns Whatever (c.new_map name spec w)
  pub new_program_back : (code : List Instruction) (w : W) → Returns Whatever (c.new_program code w)

-- The result of `NewProgram` and the handles that were made: on an error these are open and in no
-- program.
pub data Accounts {E : Type 0} : LoadError E ⊎ LoadedProgram → List ℕ → Type 0 where
  no_maps : {err : E} {l : List ℕ} → l ≡ [] → Accounts (inl (qidconf_map_failed err)) l
  one_map : (q : ℕ) {err : E} {l : List ℕ} → l ≡ q ∷ [] → Accounts (inl (xsks_map_failed err)) l
  two_maps :
      (q x : ℕ) {err : E} {l : List ℕ} → l ≡ q ∷ x ∷ [] → Accounts (inl (new_program_failed err)) l
  all_made : (q x p : ℕ) {l : List ℕ} → l ≡ q ∷ x ∷ p ∷ [] → Accounts (inr (loaded p q x)) l

module _ {W E S O : Type 0} (c : EbpfCalls W E S O) (makes : Makes c) where
  map-Returns :
      (name : String) (spec : BpfMapDef) (w : W) (l : List ℕ)
      → Returns (λ r s. s.1 ≡ made r l) ((recorded c).new_map name spec (w, l))
  unfolding recorded
  map-Returns name spec w l =
      noting-Returns (c.new_map name spec) made w l (makes.new_map_back name spec w) λ r w' _. refl

  program-Returns :
      (code : List Instruction) (w : W) (l : List ℕ)
      → Returns (λ r s. s.1 ≡ made r l) ((recorded c).new_program code (w, l))
  unfolding recorded
  program-Returns code w l =
      noting-Returns (c.new_program code) made w l (makes.new_program_back code w) λ r w' _. refl

  -- Behind both maps.
  with_program :
      (q x : ℕ) (r : E ⊎ ℕ) (s : W × List ℕ)
      → s.1 ≡ made r (q ∷ x ∷ [])
      → Returns
          (λ out s'. Accounts out (s'.1))
          (either r (λ err. pure (inl (new_program_failed err))) (λ p. pure (inr (loaded p q x))) s)
  with_program q x (inl err) s l = returns (two_maps q x l)
  with_program q x (inr p) s l = returns (all_made q x p l)

  -- Behind the first map.
  with_sockets :
      (n q : ℕ) (r : E ⊎ ℕ) (s : W × List ℕ)
      → s.1 ≡ made r (q ∷ [])
      → Returns
          (λ out s'. Accounts out (s'.1))
          (either r
            (λ err. pure (inl (xsks_map_failed err)))
            (λ x. do
              program ← (recorded c).new_program (xsk_ebpf q x)
              either program
                  (λ err. pure (inl (new_program_failed err)))
                  (λ p. pure (inr (loaded p q x))))
            s)
  with_sockets n q (inl err) s l = returns (one_map q l)
  with_sockets n q (inr x) s l =
      Returns-bind _ (program-Returns (xsk_ebpf q x) (s.0) (s.1))
        λ r s' l'. with_program q x r s' (l' ∙ rw l refl)

  with_queues :
      (n : ℕ) (r : E ⊎ ℕ) (s : W × List ℕ)
      → s.1 ≡ made r []
      → Returns
          (λ out s'. Accounts out (s'.1))
          (either r
            (λ err. pure (inl (qidconf_map_failed err)))
            (λ q. do
              made' ← (recorded c).new_map "xsks_map" (map_of_ints map_type_xskmap (u32 n))
              either made'
                  (λ err. pure (inl (xsks_map_failed err)))
                  (λ x. do
                    program ← (recorded c).new_program (xsk_ebpf q x)
                    either program
                        (λ err. pure (inl (new_program_failed err)))
                        (λ p. pure (inr (loaded p q x)))))
            s)
  with_queues n (inl err) s l = returns (no_maps l)
  with_queues n (inr q) s l =
      Returns-bind _ (map-Returns "xsks_map" (map_of_ints map_type_xskmap (u32 n)) (s.0) (s.1))
        λ r s' l'. with_sockets n q r s' (l' ∙ rw l refl)

  -- When the calls that make maps and programs come back, `NewProgram` returns. With no error, the
  -- handles that were made are those of the program that it returns, the queues' map first and the
  -- program last. With an error of the second map one handle was made before, and with an error of the
  -- program two: these are open, and the caller gets none of them.
  pub new_program-Accounts :
      (max_queue_entries : ℕ) (w : W)
      → (out : LoadError E ⊎ LoadedProgram) × (w' : W) × (l : List ℕ) × (new_program
            (recorded c)
            max_queue_entries
            (w, [])
          ≡ some (out, (w', l)))
        × Accounts out l
  unfolding new_program
  new_program-Accounts n w =
      let (out, s, e, accounts) = Returns-result (
        Returns-bind _ (map-Returns "qidconf_map" (map_of_ints map_type_array (u32 n)) w [])
          (with_queues n)) in
      (out, s.0, s.1, e, accounts)
