-- ===== src/Bytecode.antt =====
-- The program that `NewProgram` of dumpframes/program.go assembles, on the machine that runs it.
-- A value of the machine is typed by what it points to, and an access that the machine would refuse
-- is a fault, `none`. A call is by the number of a helper; its declaration in bpf_helper_defs.h gives
-- the name, the number of arguments and, by the comment above it, what the result is.
pub mod Redirects
pub mod Agreement
use Prim.Native.String.{String}
use text.Mathlib.Text.{◌==◌ as str_eq}
use defrizer.Common.{
  ℕ, zero, suc, ◌+◌, ◌-◌, List, [], ◌∷◌, Bool, true, false, Option, none, some, ◌>>=◌, get_elem?,
  ◌==◌, if◌then◌else◌, ℤ, pos, negsuc, u32,
}
use defrizer.Helpers.Types.{
  Helper, CType, Outcome, pointer_or_null, value, value_or_error, zero_or_error,
}
use defrizer.Helpers.Table.{helpers}

-- `asm.Instruction`; a map's descriptor is a constant.
pub record Instruction : Type 0 where
  pub op_code : ℕ
  pub dst : ℕ
  pub src : ℕ
  pub offset : ℤ
  pub constant : ℤ

abbrev pub insn : ℕ → ℕ → ℕ → ℤ → ℤ → Instruction
insn op_code dst src offset constant = record {
  op_code = op_code;
  dst = dst;
  src = src;
  offset = offset;
  constant = constant;
}

-- The instructions of `NewProgram`.
abbrev pub xsk_ebpf : ℕ → ℕ → List Instruction
xsk_ebpf qidconf_fd xsks_fd =
    insn 97 1 1 (pos 16) (pos 0)
    ∷ insn 99 10 1 (negsuc 3) (pos 0)
    ∷ insn 191 2 10 (pos 0) (pos 0)
    ∷ insn 7 2 0 (pos 0) (negsuc 3)
    ∷ insn 24 1 1 (pos 0) (pos qidconf_fd)
    ∷ insn 133 0 0 (pos 0) (pos 1)
    ∷ insn 191 1 0 (pos 0) (pos 0)
    ∷ insn 180 0 0 (pos 0) (pos 0)
    ∷ insn 21 1 0 (pos 8) (pos 0)
    ∷ insn 180 0 0 (pos 0) (pos 2)
    ∷ insn 97 1 1 (pos 0) (pos 0)
    ∷ insn 21 1 0 (pos 5) (pos 0)
    ∷ insn 24 1 1 (pos 0) (pos xsks_fd)
    ∷ insn 97 2 10 (negsuc 3) (pos 0)
    ∷ insn 180 3 0 (pos 0) (pos 0)
    ∷ insn 133 0 0 (pos 0) (pos 51)
    ∷ insn 149 0 0 (pos 0) (pos 0)
    ∷ []

-- The slots of a program: opcode 24 takes two.
unfoldable pub slots : List Instruction → List Instruction
slots [] = []
slots (i ∷ is) =
    let rest = slots is in
    if i.op_code == 24 then i ∷ insn 0 0 0 (pos 0) (pos 0) ∷ rest else i ∷ rest

-- A value: not set, a number, the context, the address `n` octets below the frame pointer, a map by
-- its descriptor, or the address of a map's element.
pub data Value : Type 0 where
  unset : Value
  scalar : ℕ → Value
  context : Value
  below : ℕ → Value
  map_of : ℕ → Value
  element : ℕ → Value

-- The helpers 1 and 51 over the state `W` of the maps, and the number at an element.
pub record MapHelpers (W : Type 0) : Type 0 where
  pub map_lookup_elem : W → ℕ → ℕ → Option ℕ
  pub read_int : W → ℕ → ℕ
  pub redirect_map : W → ℕ → ℕ → ℕ → ℕ × W

pub record Machine (W : Type 0) : Type 0 where
  pub pc : ℕ
  pub registers : ℕ → Value
  -- the 32-bit words of the stack, by their distance from the frame pointer
  pub stack : ℕ → Value
  pub world : W

abbrev pub set_at : ℕ → Value → (ℕ → Value) → ℕ → Value
set_at r v file i = if i == r then v else file i

abbrev pub depth : ℕ → ℤ → ℕ
depth n (pos k) = n - k
depth n (negsuc k) = n + k + 1

-- Addition of a constant.
unfoldable pub plus : Value → ℤ → Option Value
plus (below n) k = some (below (depth n k))
plus _ k = none

-- Whether a value is equal to a constant. An address can be compared with 0 only, which it is not.
unfoldable pub equals : Value → ℤ → Option Bool
equals (scalar n) (pos k) = some (n == k)
equals (element p) (pos k) = if k == 0 then some false else none
equals _ _ = none

-- What is known of a helper's result, by what its declaration says: a pointer or NULL, or a number.
unfoldable pub looked_up : Outcome → Option ℕ → Value
looked_up pointer_or_null none = scalar 0
looked_up pointer_or_null (some p) = element p
looked_up _ _ = unset

unfoldable pub numeric : Outcome → ℕ → Value
numeric value n = scalar n
numeric value_or_error n = scalar n
numeric zero_or_error n = scalar n
numeric _ n = unset

-- The helper that is declared with a number.
unfoldable pub declared : ℕ → List Helper → Option Helper
declared n [] = none
declared n (d ∷ ds) = let rest = declared n ds in if d.id == n then some d else rest

-- The values of the registers from `r` on, one for each argument.
unfoldable pub arguments : ℕ → List CType → (ℕ → Value) → List Value
arguments r [] file = []
arguments r (t ∷ ts) file = file r ∷ arguments (suc r) ts file

-- The registers 1 to 5 are lost in a call.
unfoldable pub after_call : Value → (ℕ → Value) → ℕ → Value
after_call result file i = if i == 0 then result else if i == 10 then file 10 else unset

module _ {W : Type 0} (h : MapHelpers W) (rx_queue_index : ℕ) where
  -- A 32-bit load.
  unfoldable pub load : Machine W → Value → ℤ → Option Value
  load m context (pos k) = if k == 16 then some (scalar (u32 rx_queue_index)) else none
  load m (below n) k = some (m.stack (depth n k))
  load m (element p) (pos k) = if k == 0 then some (scalar (u32 (h.read_int m.world p))) else none
  load m _ _ = none

  unfoldable pub call_lookup : Outcome → Machine W → Value → Value → Option (Machine W)
  call_lookup o m (map_of fd) (below n) = elim (m.stack n) [
    | scalar key ↦ some (record m {
      pc = m.pc + 1;
      registers = after_call (looked_up o (h.map_lookup_elem m.world fd key)) m.registers;
    })
    | _ ↦ none
  ]
  call_lookup o m _ _ = none

  unfoldable pub call_redirect : Outcome → Machine W → Value → Value → Value → Option (Machine W)
  call_redirect o m (map_of fd) (scalar key) (scalar flags) =
      let (out, w) = h.redirect_map m.world fd key flags in
      some
        (record m { pc = m.pc + 1; registers = after_call (numeric o out) m.registers; world = w })
  call_redirect o m _ _ _ = none

  abbrev pub write : Machine W → ℕ → Value → Machine W
  write m r v = record m { pc = m.pc + 1; registers = set_at r v m.registers }

  -- A store at an address on the stack.
  unfoldable pub store : Machine W → Value → ℤ → Value → Option (Machine W)
  store m (below n) k (scalar x) =
      some (record m { pc = m.pc + 1; stack = set_at (depth n k) (scalar (u32 x)) m.stack })
  store m _ _ _ = none

  abbrev pub jump : Machine W → ℕ → Bool → Machine W
  jump m k true = record m { pc = m.pc + 1 + k }
  jump m k false = record m { pc = m.pc + 1 }

  -- A jump by `offset` if a value is equal to a constant.
  unfoldable pub jump_if_equal : Machine W → Value → ℤ → ℤ → Option (Machine W)
  jump_if_equal m v constant (pos k) = do same ← equals v constant; some (jump m k same)
  jump_if_equal m v constant (negsuc k) = none

  -- A constant of 64 bits, which is a map's descriptor if the source register is 1.
  unfoldable pub map_at : ℕ → ℤ → Value
  map_at src (pos n) = if src == 1 then map_of n else scalar n
  map_at src (negsuc _) = unset

  unfoldable pub number_at : ℤ → Option Value
  number_at (pos n) = some (scalar (u32 n))
  number_at (negsuc _) = none

  -- A call by the helper's name, with as many arguments as it is declared with.
  unfoldable pub call_named : Machine W → String → Outcome → List Value → Option (Machine W)
  call_named m name o (to ∷ key ∷ []) =
      if str_eq name "map_lookup_elem" then call_lookup o m to key else none
  call_named m name o (to ∷ key ∷ flags ∷ []) =
      if str_eq name "redirect_map" then call_redirect o m to key flags else none
  call_named m name o _ = none

  -- A call by the helper's number, which its declaration in bpf_helper_defs.h has.
  unfoldable pub call_helper : ℤ → Machine W → Option (Machine W)
  call_helper (pos n) m = elim (declared n helpers) [
    | none ↦ none
    | some d ↦ call_named m d.name d.outcome (arguments 1 d.args m.registers)
  ]
  call_helper (negsuc _) m = none

  -- An instruction other than the exit: load, store, move, add, load of a 64-bit constant, move of a constant,
  -- conditional jump, and call.
  unfoldable pub execute : Instruction → Machine W → Option (Machine W)
  execute i m =
      let at = m.registers in
      if i.op_code == 97
      then (do v ← load m (at i.src) i.offset; some (write m i.dst v))
      else if i.op_code == 99
      then store m (at i.dst) i.offset (at i.src)
      else if i.op_code == 191
      then some (write m i.dst (at i.src))
      else if i.op_code == 7
      then (do v ← plus (at i.dst) i.constant; some (write m i.dst v))
      else if i.op_code == 24
      then some (record m { pc = m.pc + 2; registers = set_at i.dst (map_at i.src i.constant) at })
      else if i.op_code == 180
      then (do v ← number_at i.constant; some (write m i.dst v))
      else if i.op_code == 21
      then jump_if_equal m (at i.dst) i.constant i.offset
      else if i.op_code == 133
      then call_helper i.constant m
      else none

  abbrev pub leave : Machine W → Value → Option (ℕ × W)
  leave m (scalar n) = some (n, m.world)
  leave m _ = none

  -- At most `fuel` instructions, up to the exit.
  unfoldable pub run : ℕ → List Instruction → Machine W → Option (ℕ × W)
  run zero program m = none
  run (suc fuel) program m = elim (get_elem? program m.pc) [
    | none ↦ none
    | some i ↦ elim (i.op_code == 149) [
      | true ↦ leave m (m.registers 0)
      | false ↦ elim (execute i m) [ none ↦ none | some m' ↦ run fuel program m' ]
    ]
  ]

-- The context is in register 1 and the frame pointer in register 10.
abbrev pub entry_state : {W : Type 0} → W → Machine W
entry_state w = record {
  pc = 0;
  registers = λ i. if i == 1 then context else if i == 10 then below 0 else unset;
  stack = λ n. unset;
  world = w;
}

-- The program of `NewProgram` with the descriptors of its maps, on a frame on the queue.
unfoldable pub xsk_run : {W : Type 0} → MapHelpers W → ℕ → ℕ → ℕ → W → Option (ℕ × W)
xsk_run h qidconf_fd xsks_fd rx_queue_index w =
    run h rx_queue_index 20 (slots (xsk_ebpf qidconf_fd xsks_fd)) (entry_state w)
