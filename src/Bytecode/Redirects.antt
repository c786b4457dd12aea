-- ===== src/Bytecode/Redirects.antt =====
-- What the program of `NewProgram` does with a frame.
use defrizer.Common.{
  ℕ, ◌≡◌, refl, ap, ◌∙◌, arith, Bool, true, false, Option, none, some, ◌==◌, if◌then◌else◌, u32,
}
use defrizer.Helpers.Types.{pointer_or_null}
use defrizer.Helpers.Table.{helpers}
use defrizer.Bytecode.{
  Value, unset, scalar, below, map_of, element, set_at, Machine, entry_state, jump, xsk_ebpf,
  MapHelpers, slots, run, execute, load, store, plus, equals, looked_up, numeric, call_helper,
  after_call, call_lookup, call_redirect, declared, arguments, call_named, jump_if_equal, map_at,
  number_at, xsk_run,
}

module _ {W : Type 0} (h : MapHelpers W) (qidconf_fd xsks_fd : ℕ) (w : W) (key : ℕ) where
  -- No element for the queue aborts, an element that is 0 passes, and another redirects.
  unfoldable pub xsk_element : Option ℕ → ℕ × W
  xsk_element none = (0, w)
  xsk_element (some p) =
      if u32 (h.read_int w p) == 0 then (2, w) else h.redirect_map w xsks_fd key 0

  unfoldable pub xsk_spec : ℕ × W
  xsk_spec = xsk_element (h.map_lookup_elem w qidconf_fd key)

module _ {W : Type 0} (h : MapHelpers W) (qidconf_fd xsks_fd q : ℕ) (w : W) where
  -- The queue's number as it is loaded, and as it lies on the stack.
  abbrev key : ℕ
  key = u32 (u32 q)

  abbrev stack_key : ℕ → Value
  stack_key = set_at 4 (scalar key) (λ n. unset)

  -- The registers at the lookup, and the machine behind it.
  abbrev at_lookup : ℕ → Value
  at_lookup = set_at 1 (map_of qidconf_fd) (
      set_at 2 (below 4)
        (set_at 2 (below 0) (set_at 1 (scalar (u32 q)) ((entry_state w).registers))))

  abbrev behind_lookup : Option ℕ → Machine W
  behind_lookup o = record {
    pc = 7;
    registers = after_call (looked_up pointer_or_null o) at_lookup;
    stack = stack_key;
    world = w;
  }

  -- The machine at the test of the element.
  abbrev at_test : ℕ → Machine W
  at_test p = record {
    pc = 12;
    registers = set_at 1 (scalar (u32 (h.read_int w p))) (
        set_at 0 (scalar (u32 2))
          (set_at 0 (scalar (u32 0)) (set_at 1 (element p) (after_call (element p) at_lookup))));
    stack = stack_key;
    world = w;
  }

  from_test :
      (p : ℕ) (off : Bool)
      → run h q 8 (slots (xsk_ebpf qidconf_fd xsks_fd)) (jump h q (at_test p) 5 off)
        ≡ some (if off then (2, w) else h.redirect_map w xsks_fd key 0)
  unfolding slots run execute load plus equals looked_up numeric call_helper declared helpers
      arguments call_named after_call call_redirect jump_if_equal map_at number_at
  from_test p true = refl
  from_test p false = refl

  from_lookup :
      (o : Option ℕ)
      → run h q 14 (slots (xsk_ebpf qidconf_fd xsks_fd)) (behind_lookup o)
        ≡ some (xsk_element h qidconf_fd xsks_fd w key o)
  unfolding slots run execute load plus equals looked_up numeric call_helper declared helpers
      arguments call_named after_call call_redirect jump_if_equal map_at number_at xsk_element
  from_lookup none = refl
  from_lookup (some p) = from_test p (u32 (h.read_int w p) == 0)

  -- The program that `NewProgram` assembles ends without a fault, whatever the queue, the descriptors
  -- and the maps: it returns 0, which is XDP_ABORTED, if the map at `qidconf_fd` has no element for the
  -- queue of the frame, 2, which is XDP_PASS, if the element is 0, and else the result of redirecting
  -- the frame to the queue's socket in the map at `xsks_fd`.
  pub xsk_run_lem :
      xsk_run h qidconf_fd xsks_fd q w ≡ some (xsk_spec h qidconf_fd xsks_fd w (u32 q))
  unfolding slots run execute load store plus equals looked_up numeric call_helper declared helpers
      arguments call_named after_call call_lookup call_redirect jump_if_equal map_at number_at
      xsk_run xsk_spec
  xsk_run_lem =
      let twice : xsk_run h qidconf_fd xsks_fd q w ≡ some (xsk_spec h qidconf_fd xsks_fd w key) =
        from_lookup (h.map_lookup_elem w qidconf_fd key) in
      let same : key ≡ u32 q = omega arith in
      twice ∙ ap (λ k. some (xsk_spec h qidconf_fd xsks_fd w k)) same
