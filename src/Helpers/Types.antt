-- ===== src/Helpers/Types.antt =====
-- A declaration `static R (*bpf_NAME)(ARGS) = (void *) N;` of bpf_helper_defs.h, with what the
-- comment above it says of the result.
use Prim.Native.String.{String}
use defrizer.Common.{ℕ, List, Bool, true, false}

-- The types of the declarations. A pointer carries the text of the type that it points to.
pub data CType : Type 0 where
  void int u16 u32 u64 s32 s64 be16 wsum long unsigned_long variadic : CType
  pointer : String → CType

-- The section "Returns" of a comment: no result; a value; 0, or a negative error; a value, or a
-- negative error; a pointer, or NULL; a pointer that is never NULL.
pub data Outcome : Type 0 where
  nothing value zero_or_error value_or_error pointer_or_null valid_pointer : Outcome

-- The name stands without the prefix `bpf_` that all of them have.
pub record Helper : Type 0 where
  pub name : String
  pub ret : CType
  pub args : List CType
  pub outcome : Outcome
  pub id : ℕ

abbrev pub helper : String → CType → List CType → Outcome → ℕ → Helper
helper name ret args outcome id = record {
  name = name;
  ret = ret;
  args = args;
  outcome = outcome;
  id = id;
}

-- Whether a type can hold a negative number in the machine's arithmetic.
unfoldable pub is_signed : CType → Bool
is_signed int = true
is_signed s32 = true
is_signed s64 = true
is_signed long = true
is_signed _ = false

unfoldable pub is_pointer : CType → Bool
is_pointer (pointer _) = true
is_pointer _ = false

unfoldable pub is_void : CType → Bool
is_void void = true
is_void _ = false

-- What the outcome asks of the type.
unfoldable pub may_fail : Outcome → Bool
may_fail zero_or_error = true
may_fail value_or_error = true
may_fail _ = false

unfoldable pub gives_pointer : Outcome → Bool
gives_pointer pointer_or_null = true
gives_pointer valid_pointer = true
gives_pointer _ = false

unfoldable pub gives_nothing : Outcome → Bool
gives_nothing nothing = true
gives_nothing _ = false
