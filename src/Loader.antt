-- ===== src/Loader.antt =====
-- The constructors of `Program`: `NewProgram` and `LoadProgram` of dumpframes/program.go, and
-- `NewTCPSynProgram` of src/ebpf/tcp_syn_kern.go of both variants. The calls of the ebpf library are
-- steps on the state of the kernel.
pub mod Ready
pub mod Handles
use Prim.Native.String.{String}
use text.Mathlib.Text.{◌==◌ as str_eq}
use defrizer.Common.{ℕ, ◌⊎◌, inl, inr, List, [], ◌∷◌, Option, none, some, if◌then◌else◌, u32}
use defrizer.Driver.{Run, pure, ◌>>=◌, either}
use defrizer.Maps.{BpfMapDef, map_type_array, map_type_xskmap, sizeof_int, LoadedProgram, loaded}
use defrizer.Maps.Ring.{EventProgram}
use defrizer.Bytecode.{Instruction, xsk_ebpf}

-- `ebpf.Collection`: the programs and the maps of a loaded file, by name.
pub record Collection : Type 0 where
  pub programs : List (String × ℕ)
  pub maps : List (String × ℕ)

-- The calls of the ebpf library, and of the generated bindings: `loadTcpsyn`, and `LoadAndAssign` with
-- the descriptors of the objects that it fills in.
pub record EbpfCalls (W E Spec Objects : Type 0) : Type 0 where
  pub new_map : String → BpfMapDef → Run W (E ⊎ ℕ)
  pub new_program : List Instruction → Run W (E ⊎ ℕ)
  pub load_collection : String → Run W (E ⊎ Collection)
  pub load_tcpsyn : Run W (E ⊎ Spec)
  pub load_and_assign : Spec → Run W (E ⊎ Objects)

-- `tcpsynObjects` of the two variants.
pub record SockObjects : Type 0 where
  pub xdp_sock_prog : ℕ
  pub qidconf_map : ℕ
  pub xsks_map : ℕ

pub record EventObjects : Type 0 where
  pub perf_event_test : ℕ
  pub events : ℕ

pub data LoadError (E : Type 0) : Type 0 where
  qidconf_map_failed : E → LoadError E
  xsks_map_failed : E → LoadError E
  new_program_failed : E → LoadError E
  failed : E → LoadError E
  no_function : String → String → LoadError E
  no_queue_map : String → String → LoadError E
  no_socket_map : String → String → LoadError E

abbrev pub map_of_ints : ℕ → ℕ → BpfMapDef
map_of_ints type max_entries = record {
  type = type;
  key_size = sizeof_int;
  value_size = sizeof_int;
  max_entries = max_entries;
  map_flags = 0;
}

-- A Go map from names.
unfoldable pub named : String → List (String × ℕ) → Option ℕ
named name [] = none
named name ((key, fd) ∷ rest) = if str_eq key name then some fd else named name rest

-- A value, or the error that is returned where there is none.
abbrev pub present : {W A E : Type 0} → Option ℕ → E → (ℕ → Run W (E ⊎ A)) → Run W (E ⊎ A)
present none err go = pure (inl err)
present (some fd) err go = go fd

-- `NewProgram`; a Go `int` is its 64-bit pattern.
unfoldable pub new_program :
    {W E S O : Type 0} → EbpfCalls W E S O → ℕ → Run W (LoadError E ⊎ LoadedProgram)
new_program c max_queue_entries = do
  made ← c.new_map "qidconf_map" (map_of_ints map_type_array (u32 max_queue_entries))
  either made (λ err. pure (inl (qidconf_map_failed err)))
      (λ qidconf_fd. do
        made' ← c.new_map "xsks_map" (map_of_ints map_type_xskmap (u32 max_queue_entries))
        either made' (λ err. pure (inl (xsks_map_failed err)))
            (λ xsks_fd. do
              program ← c.new_program (xsk_ebpf qidconf_fd xsks_fd)
              either program (λ err. pure (inl (new_program_failed err)))
                  (λ program_fd. pure (inr (loaded program_fd qidconf_fd xsks_fd)))))

-- `LoadProgram`
unfoldable pub load_program :
    {W E S O : Type 0}
    → EbpfCalls W E S O
    → String
    → String
    → String
    → String
    → Run W (LoadError E ⊎ LoadedProgram)
load_program c fname funcname qidmapname xskmapname = do
  found ← c.load_collection fname
  either found (λ err. pure (inl (failed err)))
      (λ col. present (named funcname col.programs) (no_function fname funcname) (λ program_fd.
        present (named qidmapname col.maps) (no_queue_map fname qidmapname) (λ queues_fd.
          present (named xskmapname col.maps) (no_socket_map fname xskmapname)
            (λ sockets_fd. pure (inr (loaded program_fd queues_fd sockets_fd))))))

module _ {W E S O P : Type 0} (c : EbpfCalls W E S O) (filled : O → P) where
  -- `NewTCPSynProgram`, with the `Program` that it makes of the objects.
  unfoldable pub new_tcp_syn_program : Run W (LoadError E ⊎ P)
  new_tcp_syn_program = do
    loaded_spec ← c.load_tcpsyn
    either loaded_spec (λ err. pure (inl (failed err)))
        (λ spec. do
          assigned ← c.load_and_assign spec
          either assigned (λ err. pure (inl (failed err))) (λ objects. pure (inr (filled objects))))

abbrev pub sock_program : SockObjects → LoadedProgram
sock_program o = loaded o.xdp_sock_prog o.qidconf_map o.xsks_map

abbrev pub event_program : EventObjects → EventProgram
event_program o = record { program = some o.perf_event_test; events = some o.events }
