-- ===== src/Tests/Ring.antt =====
-- A ring buffer as a list: a frame arrives, and its greeting is read and printed.
use defrizer.Common.{ℕ, ◌≡◌, inr, List, [], ◌∷◌, ◌++◌, none, some, Option, ◌⊎◌}
use defrizer.Endian.{big}
use defrizer.Uapi.{linux}
use defrizer.Memory.{XdpMd}
use defrizer.Spec.Policy.{passes, announced, traced}
use defrizer.Program.Event.{EventHelpers, hello, perf_event_test}
use defrizer.Program.Delivery.{event_delivers}
use defrizer.Driver.{pure}
use defrizer.Driver.Events.{Host}
use defrizer.Tests.Data.{tagged_segment, tagged_segment-IsPlaced}
use defrizer.Tests.Frames.{sample, sample-IsFrame, sample_sent}

abbrev Ring : Type 0
Ring = List (List ℕ)

-- A record is padded with a zero.
abbrev padded : List ℕ → List ℕ
padded bytes = bytes ++ 0 ∷ []

abbrev pushing : EventHelpers Ring
pushing = record {
  trace_printk = λ w fmt size args. w;
  ringbuf_output = λ w bytes size flags. (0, w ++ padded bytes ∷ []);
}

-- A read of an empty ring waits.
abbrev taken : Ring → Option ((ℕ ⊎ List ℕ) × Ring)
taken [] = none
taken (x ∷ xs) = some (inr x, xs)

abbrev ring_host : Host Ring ℕ ℕ ℕ
ring_host = record {
  remove_memlock = pure none;
  interfaces = pure (inr []);
  new_program = pure (inr 7);
  close = λ p. pure none;
  attach = λ p i. pure none;
  detach = λ p i. pure none;
  new_reader = λ p. pure (inr 3);
  close_reader = λ rd. pure none;
  read = λ rd. taken;
  println = λ s. pure tt;
}

greeted : perf_event_test pushing linux big tagged_segment [] ≡ some (passes, padded hello ∷ [])
unfolding announced traced
greeted =
    event_delivers pushing big tagged_segment [] tagged_segment-IsPlaced sample sample-IsFrame
      sample_sent

-- Two frames before the first read, none before the line is printed, and one before the next read.
abbrev rush : List (List XdpMd)
rush = (tagged_segment ∷ tagged_segment ∷ []) ∷ [] ∷ (tagged_segment ∷ []) ∷ []
