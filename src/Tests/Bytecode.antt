-- ===== src/Tests/Bytecode.antt =====
-- The bytecode of `NewProgram` on maps in which queue 3 has an element that is not 0.
use defrizer.Common.{ℕ, ◌+◌, ◌≡◌, refl, none, some, ◌==◌, if◌then◌else◌, u32}
use defrizer.Bytecode.{MapHelpers, xsk_run}
use defrizer.Bytecode.Redirects.{xsk_spec, xsk_element, xsk_run_lem}

abbrev two_maps : MapHelpers ℕ
two_maps = record {
  map_lookup_elem = λ w fd key. if key == 3 then some 64 else none;
  read_int = λ w p. 1;
  redirect_map = λ w fd key flags. (4, w + fd);
}

xsk_redirects : xsk_spec two_maps 6 5 100 (u32 3) ≡ (4, 105)
unfolding xsk_spec xsk_element
xsk_redirects = refl

xsk_run_lem_example : xsk_run two_maps 6 5 3 100 ≡ some (xsk_spec two_maps 6 5 100 (u32 3))
xsk_run_lem_example = xsk_run_lem two_maps 6 5 3 100
