-- ===== src/Tests/Readers.antt =====
-- `main` of perf_event/src/dumpframes.go on a small host whose ring buffer holds a few samples.
use defrizer.Common.{ℕ, zero, suc, ◌≡◌, refl, ◌⊎◌, inl, inr, List, [], ◌∷◌, Option, none, some}
use defrizer.Driver.{pure, deferring, find_ifindex, read_panic}
use defrizer.Driver.Events.{Host, samples, open_reader, attach_and_read, with_interface, main}
use defrizer.Driver.Events.Ledger.{Ledger, blank, tracked}
use defrizer.Driver.Events.Release.{event_main_releases}
use defrizer.Tests.Drivers.{interfaces_here}

abbrev read_small : ℕ → Option ((ℕ ⊎ List ℕ) × ℕ)
read_small zero = some (inl 5, 0)
read_small (suc n) = some (inr (n ∷ []), n)

-- The state is the number of samples in the ring buffer.
abbrev small_reader : Host ℕ ℕ ℕ ℕ
small_reader = record {
  remove_memlock = pure none;
  interfaces = pure (inr interfaces_here);
  new_program = pure (inr 7);
  close = λ p. pure none;
  attach = λ p i. pure none;
  detach = λ p i. pure none;
  new_reader = λ p. pure (inr 3);
  close_reader = λ rd. pure none;
  read = λ rd. read_small;
  println = λ sample. pure tt;
}

-- Two samples are read, and the third read panics.
main_reads : main small_reader 3 "eth0" 2 ≡ some (read_panic 5, 0)
unfolding main find_ifindex with_interface attach_and_read open_reader samples deferring
main_reads = refl

event_main_releases_example :
    (l : Ledger) × (main (tracked small_reader) 3 "eth0" (2, blank) ≡ some (read_panic 5, (0, l)))
    × (l.held ≡ some [])
    × (l.shown ≡ l.sampled)
event_main_releases_example =
    event_main_releases small_reader 3 "eth0" 2 0 (read_panic 5) main_reads
