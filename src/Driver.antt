-- ===== src/Driver.antt =====
-- The Go programs that load the XDP programs: `main` of dumpframes/src/dumpframes.go and of
-- perf_event/src/dumpframes.go. A call is a step on the state `W` of the world, and `none` is one
-- that does not come back. The calls that `main` makes are the fields of a record for each program.
pub mod Frames
pub mod Events
pub mod Search
pub mod Track
pub mod Returns
pub mod Ensures
pub mod Ring
pub mod Xsk
pub mod Held
pub mod Linked
use Prim.Native.String.{String}
use text.Mathlib.Text.{◌==◌ as str_eq}
use defrizer.Common.{
  ℕ, ◌⊎◌, inl, inr, List, [], ◌∷◌, Option, none, some, if◌then◌else◌, ℤ, pos, minus_one,
}

abbrev pub Run : Type 0 → Type 0 → Type 0
Run W A = W → Option (A × W)

module _ {W : Type 0} where
  abbrev pub pure : {A : Type 0} → A → Run W A
  pure a w = some (a, w)

  abbrev pub and_then : {A B : Type 0} → Option (A × W) → (A → Run W B) → Option (B × W)
  and_then none f = none
  and_then (some (a, w)) f = f a w

  infixl 5 ◌>>=◌ ◌>>◌
  abbrev pub ◌>>=◌ : {A B : Type 0} → Run W A → (A → Run W B) → Run W B
  ◌>>=◌ m f w = and_then (m w) f

  abbrev pub ◌>>◌ : {A B : Type 0} → Run W A → Run W B → Run W B
  m >> k = m >>= λ _. k

  -- `if err != nil { … }`, with the rest of the body; an error, and a value or an error.
  abbrev pub checked : {A E : Type 0} → Option E → (E → Run W A) → Run W A → Run W A
  checked (some err) fail go = fail err
  checked none fail go = go

  abbrev pub either : {A B E : Type 0} → E ⊎ A → (E → Run W B) → (A → Run W B) → Run W B
  either (inl err) fail go = fail err
  either (inr a) fail go = go a

  -- The rest of a function body behind `defer f()`: `f` runs when the body returns or panics, and its
  -- result is dropped.
  unfoldable pub deferring : {A B : Type 0} → Run W B → Run W A → Run W A
  deferring f body = do a ← body; _ ← f; pure a

-- `net.Interface`, as far as it is read.
pub record NetInterface : Type 0 where
  pub name : String
  pub index : ℕ

-- The loop that looks for the interface; -1 if there is none.
unfoldable pub find_ifindex : String → List NetInterface → ℤ
find_ifindex link_name [] = minus_one
find_ifindex link_name (iface ∷ rest) =
    let later = find_ifindex link_name rest in
    if str_eq (iface.name) link_name then pos (iface.index) else later

-- How `main` ends: the message that it prints before it returns, or the panic, with the error.
pub data Exit (E : Type 0) : Type 0 where
  memlock_refused : E → Exit E
  interfaces_failed : E → Exit E
  interface_missing : Exit E
  program_failed : E → Exit E
  attach_failed : E → Exit E
  socket_failed : E → Exit E
  register_failed : E → Exit E
  poll_failed : E → Exit E
  reader_panic : E → Exit E
  read_panic : E → Exit E
