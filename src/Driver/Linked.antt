-- ===== src/Driver/Linked.antt =====
-- `main` of dumpframes/src/dumpframes.go on the methods of `Program` of dumpframes/program.go, over
-- the kernel's maps and links.
pub mod Leaves
pub mod Diverts
pub mod Polled
pub mod Free
pub mod Body
pub mod Prompt
pub mod Ends
pub mod Frees
pub mod Reader
use defrizer.Common.{ℕ, Option, none, some}
use defrizer.Driver.Frames.{Host}
use defrizer.Maps.{MapCalls, LoadedProgram, ProgramError, register, unregister, close}
use defrizer.Link.{NetLinkCalls, LinkError, attach, attach_nil, remove_program}

-- A Go error: of `Program`'s own calls, of netlink, or of a call elsewhere.
pub data Failure (E : Type 0) : Type 0 where
  of_program : ProgramError → Failure E
  of_link : LinkError → Failure E
  elsewhere : E → Failure E

abbrev pub wrapped : {F G : Type 0} → (F → G) → Option F → Option G
wrapped wrap none = none
wrapped wrap (some err) = some (wrap err)

abbrev pub outcome : {W F G : Type 0} → (F → G) → Option (Option F × W) → Option (Option G × W)
outcome wrap none = none
outcome wrap (some (failure, w)) = some (wrapped wrap failure, w)

module _ {W E : Type 0} where
  -- `Attach` takes the descriptor of the program, which panics on a nil one. `removeProgram` looks at
  -- the link `looks` times.
  abbrev pub attach_handle : NetLinkCalls W → ℕ → Option ℕ → ℕ → W → Option (Option (Failure E) × W)
  attach_handle links looks none ifindex w = outcome of_link (attach_nil links ifindex looks w)
  attach_handle links looks (some fd) ifindex w = outcome of_link (attach links ifindex looks fd w)

  abbrev pub attach_loaded :
      NetLinkCalls W → ℕ → LoadedProgram → ℕ → W → Option (Option (Failure E) × W)
  attach_loaded links looks p = attach_handle links looks p.program

  abbrev pub detach_link : NetLinkCalls W → ℕ → ℕ → W → Option (Option (Failure E) × W)
  detach_link links looks ifindex w = outcome of_link (remove_program links ifindex looks w)

  abbrev pub close_loaded : MapCalls W → LoadedProgram → W → Option (Option (Failure E) × W)
  close_loaded maps p w =
      let (failure, p', w') = close maps p w in some (wrapped of_program failure, w')

-- The host `h` with the methods of `Program`.
unfoldable pub linked :
    {W S D E : Type 0}
    → MapCalls W
    → NetLinkCalls W
    → ℕ
    → Host W LoadedProgram S D (Failure E)
    → Host W LoadedProgram S D (Failure E)
linked maps links looks h = record h {
  attach = attach_loaded links looks;
  detach = λ p. detach_link links looks;
  close = close_loaded maps;
  register = λ p queue_id fd w. outcome of_program (register maps p queue_id fd w);
  unregister = λ p queue_id w. outcome of_program (unregister maps p queue_id w);
}
