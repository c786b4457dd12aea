-- ===== src/Driver/Events.antt =====
-- `main` of perf_event/src/dumpframes.go: it attaches the program that announces SYN segments, opens a
-- reader on its ring buffer, and prints the samples until a read fails.
pub mod Ledger
pub mod Release
pub mod Terminate
use Prim.Native.String.{String}
use defrizer.Common.{ℕ, zero, suc, ◌⊎◌, List, Option, none, some, ℤ, pos, negsuc}
use defrizer.Driver.{
  Run, pure, ◌>>=◌, ◌>>◌, deferring, checked, either, NetInterface, find_ifindex, Exit,
  memlock_refused, interfaces_failed, interface_missing, program_failed, attach_failed,
  reader_panic, read_panic,
}

-- The calls of `main`: of the operating system, of the methods of `Program`, of the ring buffer
-- library and of the output. `P` and `R` are programs and readers, and `E` is an error. `new_reader`
-- is given the program for its map `Events`.
pub record Host (W P R E : Type 0) : Type 0 where
  pub remove_memlock : Run W (Option E)
  pub interfaces : Run W (E ⊎ List NetInterface)
  pub new_program : Run W (E ⊎ P)
  pub close : P → Run W (Option E)
  pub attach : P → ℕ → Run W (Option E)
  pub detach : P → ℕ → Run W (Option E)
  pub new_reader : P → Run W (E ⊎ R)
  pub close_reader : R → Run W (Option E)
  pub read : R → Run W (E ⊎ List ℕ)
  pub println : List ℕ → Run W (Unit {0})

module _ {W P R E : Type 0} (h : Host W P R E) where
  -- The endless loop, for at most `fuel` reads.
  unfoldable pub samples : ℕ → R → Run W (Exit E)
  samples zero rd = λ w. none
  samples (suc fuel) rd = do
    got ← h.read rd
    either got (λ err. pure (read_panic err)) (λ sample. do h.println sample; samples fuel rd)

  -- From `NewReader` on.
  unfoldable pub open_reader : ℕ → P → Run W (Exit E)
  open_reader fuel p = do
    opened ← h.new_reader p
    either opened (λ err. pure (reader_panic err))
        (λ rd. deferring (h.close_reader rd) (samples fuel rd))

  -- From `Attach` on.
  unfoldable pub attach_and_read : ℕ → P → ℕ → Run W (Exit E)
  attach_and_read fuel p ifindex = do
    failure ← h.attach p ifindex
    checked failure (λ err. pure (attach_failed err))
        (deferring (h.detach p ifindex) (open_reader fuel p))

  -- From the test of the interface's index on.
  unfoldable pub with_interface : ℕ → ℤ → Run W (Exit E)
  with_interface fuel (negsuc _) = pure interface_missing
  with_interface fuel (pos ifindex) = do
    loaded ← h.new_program
    either loaded (λ err. pure (program_failed err))
        (λ p. deferring (h.close p) (attach_and_read fuel p ifindex))

  -- `main`, with the value of its flag `linkname`, for at most `fuel` reads.
  unfoldable pub main : ℕ → String → Run W (Exit E)
  main fuel link_name = do
    refused ← h.remove_memlock
    checked refused (λ err. pure (memlock_refused err))
        (do
          found ← h.interfaces
          either found (λ err. pure (interfaces_failed err))
              (λ list. with_interface fuel (find_ifindex link_name list)))
