-- ===== src/Maps.antt =====
-- The maps that the redirecting program and its loader share, and the loader's use of them.
-- dumpframes/src/ebpf/tcp_syn_kern.c defines `xsks_map` and `qidconf_map`; dumpframes/program.go
-- writes to them in `Register` and `Unregister`, and closes them in `Close`. A Go error is an
-- optional value, `none` for nil; the outer `none` is the panic on a nil map.
pub mod Kernel
pub mod Outcome
pub mod Served
pub mod Serve
pub mod Release
pub mod Ring
use defrizer.Common.{ℕ, List, [], ◌∷◌, ◌++◌, ◌*◌, Option, none, some, ◌>>=◌, u32}

-- `struct bpf_map_def` of bpf_helpers.h.
pub record BpfMapDef : Type 0 where
  pub type : ℕ
  pub key_size : ℕ
  pub value_size : ℕ
  pub max_entries : ℕ
  pub map_flags : ℕ

abbrev pub map_type_array : ℕ
map_type_array = 2

abbrev pub map_type_xskmap : ℕ
map_type_xskmap = 17

abbrev pub sizeof_int : ℕ
sizeof_int = 4

abbrev pub max_socks : ℕ
max_socks = 64

abbrev pub xsks_map : BpfMapDef
xsks_map = record {
  type = map_type_xskmap;
  key_size = sizeof_int;
  value_size = sizeof_int;
  max_entries = max_socks;
  map_flags = 0;
}

abbrev pub qidconf_map : BpfMapDef
qidconf_map = record {
  type = map_type_array;
  key_size = sizeof_int;
  value_size = sizeof_int;
  max_entries = max_socks;
  map_flags = 0;
}

-- `Program` of dumpframes/program.go: file descriptors, `none` for nil.
pub record LoadedProgram : Type 0 where
  pub program : Option ℕ
  pub queues : Option ℕ
  pub sockets : Option ℕ

-- The program that `NewTCPSynProgram` of src/ebpf/tcp_syn_kern.go returns.
abbrev pub loaded : ℕ → ℕ → ℕ → LoadedProgram
loaded program queues sockets = record {
  program = some program;
  queues = some queues;
  sockets = some sockets;
}

-- The errors of program.go, around the error number of the failed call.
pub data ProgramError : Type 0 where
  failed_to_update_xsks_map : ℕ → ProgramError
  failed_to_update_qidconf_map : ℕ → ProgramError
  failed_to_delete : ℕ → ProgramError
  failed_to_close_xsks_map : ℕ → ProgramError
  failed_to_close_qidconf_map : ℕ → ProgramError
  failed_to_close_program : ℕ → ProgramError

-- The library calls that the methods make, over the state `W` of the kernel: `Map.Put` and
-- `Map.Delete` on a map's descriptor, and `Close` of a map or a program.
pub record MapCalls (W : Type 0) : Type 0 where
  pub put : W → ℕ → ℕ → ℕ → Option ℕ × W
  pub delete : W → ℕ → ℕ → Option ℕ × W
  pub close : W → ℕ → Option ℕ × W

-- `allErrors[0]`, or nil.
unfoldable pub first_error : List ProgramError → Option ProgramError
first_error [] = none
first_error (err ∷ errs) = some err

module _ {W : Type 0} (k : MapCalls W) where
  -- `Register`; a Go `int` is its 64-bit pattern.
  unfoldable pub register : LoadedProgram → ℕ → ℕ → W → Option (Option ProgramError × W)
  register p queue_id fd w = do
    sockets ← p.sockets
    let (failure, w') = k.put w sockets (u32 queue_id) (u32 fd)
    elim failure [
      | some err ↦ some (some (failed_to_update_xsks_map err), w')
      | none ↦ do
        queues ← p.queues
        let (failure', w'') = k.put w' queues (u32 queue_id) (u32 1)
        elim failure' [
          | some err ↦ some (some (failed_to_update_qidconf_map err), w'')
          | none ↦ some (none, w'')
        ]
    ]

  -- `Unregister`
  unfoldable pub unregister : LoadedProgram → ℕ → W → Option (Option ProgramError × W)
  unregister p queue_id w = do
    queues ← p.queues
    let (failure, w') = k.delete w queues (u32 queue_id)
    elim failure [
      | some err ↦ some (some (failed_to_delete err), w')
      | none ↦ do
        sockets ← p.sockets
        let (failure', w'') = k.delete w' sockets (u32 queue_id)
        elim failure' [
          | some err ↦ some (some (failed_to_delete err), w'')
          | none ↦ some (none, w'')
        ]
    ]

  -- One `if` of `Close`: a handle that is not nil is closed, and its error joins `all_errors`.
  unfoldable pub close_handle :
      (ℕ → ProgramError) → Option ℕ → List ProgramError → W → List ProgramError × W
  close_handle wrap none all_errors w = (all_errors, w)
  close_handle wrap (some fd) all_errors w =
      let (failure, w') = k.close w fd in
      elim failure [ some err ↦ (all_errors ++ (wrap err ∷ []), w') | none ↦ (all_errors, w') ]

  -- `Close`: the error, the program with its fields set to nil, and the kernel.
  unfoldable pub close : LoadedProgram → W → Option ProgramError × LoadedProgram × W
  close p w =
      let (errs, w') = close_handle failed_to_close_xsks_map p.sockets [] w in
      let (errs', w'') = close_handle failed_to_close_qidconf_map p.queues errs w' in
      let (errs'', w''') = close_handle failed_to_close_program p.program errs' w'' in
      (first_error errs'', record { program = none; queues = none; sockets = none }, w''')
