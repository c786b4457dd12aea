-- ===== src/Tests/Constructors.antt =====
-- The constructors of `Program` over a kernel that hands out descriptors in turn.
use defrizer.Common.{ℕ, ◌+◌, ◌≡◌, refl, inl, inr, List, ◌⊎◌, [], ◌∷◌, Option, some}
use defrizer.Driver.{pure}
use defrizer.Maps.{ProgramError, LoadedProgram, loaded, register, unregister}
use defrizer.Loader.{
  EbpfCalls, SockObjects, new_program, load_program, no_queue_map, named, LoadError,
  new_program_failed,
}
use defrizer.Loader.Handles.{recorded, Makes, Accounts, new_program-Accounts}
use defrizer.Driver.Returns.{returns}
use defrizer.Loader.Ready.{by_new_program, constructors_ready}
use defrizer.Tests.Kernel.{World, fresh, calls}

abbrev counting_up : EbpfCalls ℕ ℕ ℕ SockObjects
counting_up = record {
  new_map = λ name spec w. some (inr w, w + 1);
  new_program = λ code w. some (inr w, w + 1);
  load_collection = λ fname.
      pure (inr (record { programs = ("xdp_sock_prog", 9) ∷ []; maps = ("xsks_map", 5) ∷ [] }));
  load_tcpsyn = pure (inl 2);
  load_and_assign = λ spec. pure (inl 2);
}

-- The maps are made first, and the program last.
made : new_program counting_up 64 4 ≡ some (inr (loaded 6 4 5), 7)
unfolding new_program
made = refl

incomplete :
    load_program counting_up "a.o" "xdp_sock_prog" "qidconf_map" "xsks_map" 4
    ≡ some (inl (no_queue_map "a.o" "qidconf_map"), 4)
unfolding load_program named
incomplete = refl

constructors_ready_example :
    (program : ℕ) × (r : Option ProgramError × World) × (s : Option ProgramError × World) × (some 6
      ≡ some program)
    × (register calls (loaded 6 4 5) 3 9 fresh ≡ some r)
    × (unregister calls (loaded 6 4 5) 3 fresh ≡ some s)
constructors_ready_example =
    constructors_ready counting_up calls (loaded 6 4 5) 3 9 fresh (by_new_program 64 4 7 made)

-- The program is refused behind both maps.
abbrev refusing : EbpfCalls ℕ ℕ ℕ SockObjects
refusing = record counting_up { new_program = λ code. pure (inl 13) }

refusing-Makes : Makes refusing
refusing-Makes = record {
  new_map_back = λ name spec w. returns tt;
  new_program_back = λ code w. returns tt;
}

leaked :
    new_program (recorded refusing) 64 (4, []) ≡ some (inl (new_program_failed 13), (6, 4 ∷ 5 ∷ []))
unfolding new_program recorded
leaked = refl

new_program-Accounts_example :
    (out : LoadError ℕ ⊎ LoadedProgram) × (w' : ℕ) × (l : List ℕ) × (new_program
        (recorded refusing)
        64
        (4, [])
      ≡ some (out, (w', l)))
    × Accounts out l
new_program-Accounts_example = new_program-Accounts refusing refusing-Makes 64 4
