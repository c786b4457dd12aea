-- ===== src/Loader/Ready.antt =====
-- What the constructors of `Program` return, and the methods on it.
use Prim.Native.String.{String}
use std.Path.{subst}
use defrizer.Common.{ℕ, ◌≡◌, refl, ap, ◌∙◌, ◌⊎◌, inl, inr, Option, none, some, u32}
use defrizer.Driver.{Run, pure, and_then, either}
use defrizer.Bytecode.{xsk_ebpf}
use defrizer.Maps.{
  MapCalls, map_type_array, map_type_xskmap, LoadedProgram, ProgramError, loaded, register,
  unregister,
}
use defrizer.Maps.Outcome.{register-returns, unregister-returns}
use defrizer.Loader.{
  EbpfCalls, SockObjects, qidconf_map_failed, xsks_map_failed, new_program_failed, failed,
  no_function, no_queue_map, no_socket_map, map_of_ints, named, present, new_program, load_program,
  new_tcp_syn_program, sock_program,
}

-- If a run comes back with a value and not with an error, the value is as `Q` says.
data Yields {W E A : Type 0} (Q : A → Type 0) : Option ((E ⊎ A) × W) → Type 0 where
  never : Yields Q none
  fails : {err : E} {w : W} → Yields Q (some (inl err, w))
  yields : {a : A} {w : W} → Q a → Yields Q (some (inr a, w))

module _ {W E A : Type 0} {Q : A → Type 0} where
  Yields-value : {a : A} {w : W} → Yields {E = E} Q (some (inr a, w)) → Q a
  Yields-value (yields q) = q

  Yields-try :
      {F B : Type 0} (m : Option ((F ⊎ B) × W)) (wrap : F → E) (go : B → Run W (E ⊎ A))
      → ((b : B) (w : W) → Yields Q (go b w))
      → Yields Q (and_then m λ x. either x (λ err. pure (inl (wrap err))) go)
  Yields-try none wrap go rest = never
  Yields-try (some (inl err, w)) wrap go rest = fails
  Yields-try (some (inr b, w)) wrap go rest = rest b w

  Yields-present :
      (o : Option ℕ) (err : E) (go : ℕ → Run W (E ⊎ A)) (w : W)
      → ((fd : ℕ) → Yields Q (go fd w))
      → Yields Q (present o err go w)
  Yields-present none err go w rest = fails
  Yields-present (some fd) err go w rest = rest fd

-- A program with no nil handle.
abbrev pub IsLoaded : LoadedProgram → Type 0
IsLoaded p = (program : ℕ) × (queues : ℕ) × (sockets : ℕ) × (p ≡ loaded program queues sockets)

module _ {W E S : Type 0} (c : EbpfCalls W E S SockObjects) where
  -- The programs that the constructors return.
  pub data Constructed : LoadedProgram → Type 0 where
    by_new_program :
        {p : LoadedProgram} (max_queue_entries : ℕ) (w w' : W)
        → new_program c max_queue_entries w ≡ some (inr p, w')
        → Constructed p
    by_load_program :
        {p : LoadedProgram} (fname funcname qidmapname xskmapname : String) (w w' : W)
        → load_program c fname funcname qidmapname xskmapname w ≡ some (inr p, w')
        → Constructed p
    by_new_tcp_syn_program :
        {p : LoadedProgram} (w w' : W)
        → new_tcp_syn_program c sock_program w ≡ some (inr p, w')
        → Constructed p

  new_program-Yields : (n : ℕ) (w : W) → Yields IsLoaded (new_program c n w)
  unfolding new_program
  new_program-Yields n w =
      Yields-try (c.new_map "qidconf_map" (map_of_ints map_type_array (u32 n)) w) qidconf_map_failed
        _
        λ q w1.
          Yields-try (c.new_map "xsks_map" (map_of_ints map_type_xskmap (u32 n)) w1) xsks_map_failed
            _
            λ x w2.
              Yields-try (c.new_program (xsk_ebpf q x) w2) new_program_failed _
                λ p w3. yields (p, q, x, refl)

  load_program-Yields : (f g q x : String) (w : W) → Yields IsLoaded (load_program c f g q x w)
  unfolding load_program
  load_program-Yields f g q x w = Yields-try (c.load_collection f w) failed _ λ col w1.
      Yields-present (named g col.programs) (no_function f g) _ w1 λ p.
        Yields-present (named q col.maps) (no_queue_map f q) _ w1 λ qs.
          Yields-present (named x col.maps) (no_socket_map f x) _ w1 λ xs. yields (p, qs, xs, refl)

  new_tcp_syn_program-Yields : (w : W) → Yields IsLoaded (new_tcp_syn_program c sock_program w)
  unfolding new_tcp_syn_program
  new_tcp_syn_program-Yields w = Yields-try (c.load_tcpsyn w) failed _ λ spec w1.
      Yields-try (c.load_and_assign spec w1) failed _
        λ o w2. yields (o.xdp_sock_prog, o.qidconf_map, o.xsks_map, refl)

  Constructed-IsLoaded : {p : LoadedProgram} → Constructed p → IsLoaded p
  Constructed-IsLoaded (by_new_program n w w' e) =
      Yields-value (subst (Yields IsLoaded) e (new_program-Yields n w))
  Constructed-IsLoaded (by_load_program f g q x w w' e) =
      Yields-value (subst (Yields IsLoaded) e (load_program-Yields f g q x w))
  Constructed-IsLoaded (by_new_tcp_syn_program w w' e) =
      Yields-value (subst (Yields IsLoaded) e (new_tcp_syn_program-Yields w))

  -- A program that `NewProgram`, `LoadProgram` or `NewTCPSynProgram` returns with no error has a
  -- descriptor for `Attach`, and `Register` and `Unregister` return on it, whatever the queue, the
  -- socket and the results of the kernel's calls: none of them meets a nil handle.
  pub constructors_ready :
      {V : Type 0} (k : MapCalls V) (p : LoadedProgram) (q fd : ℕ) (v : V)
      → Constructed p
      → (program : ℕ) × (r : Option ProgramError × V) × (s : Option ProgramError × V) × (p.program
          ≡ some program)
        × (register k p q fd v ≡ some r)
        × (unregister k p q v ≡ some s)
  constructors_ready k p q fd v made =
      let (program, queues, sockets, e) = Constructed-IsLoaded made in
      let (r, registered) = register-returns k program queues sockets q fd v in
      let (s, unregistered) = unregister-returns k program queues sockets q v in
      (
        program,
        r,
        s,
        ap (λ x. x.program) e,
        ap (λ x. register k x q fd v) e ∙ registered,
        ap (λ x. unregister k x q v) e ∙ unregistered,
      )
