-- ===== src/Maps/Ring.antt =====
-- The ring buffer of perf_event/src/ebpf/tcp_syn_kern.c, and the handles of its loader.
use defrizer.Common.{ℕ, [], ◌*◌, Option, none}
use defrizer.Maps.{
  BpfMapDef, MapCalls, ProgramError, failed_to_close_xsks_map, failed_to_close_program,
  close_handle, first_error,
}

abbrev pub map_type_ringbuf : ℕ
map_type_ringbuf = 27

abbrev pub events : BpfMapDef
events = record {
  type = map_type_ringbuf;
  key_size = 0;
  value_size = 0;
  max_entries = 256 * 1024;
  map_flags = 0;
}

-- `Program` of perf_event/program.go: file descriptors, `none` for nil.
pub record EventProgram : Type 0 where
  pub program : Option ℕ
  pub events : Option ℕ

-- `Close` of perf_event/program.go: the error, the program with its fields set to nil, and the kernel.
-- The message about the ring buffer names the sockets' map.
unfoldable pub close_event_program :
    {W : Type 0} → MapCalls W → EventProgram → W → Option ProgramError × EventProgram × W
close_event_program k p w =
    let (errs, w') = close_handle k failed_to_close_xsks_map p.events [] w in
    let (errs', w'') = close_handle k failed_to_close_program p.program errs w' in
    (first_error errs', record { program = none; events = none }, w'')
