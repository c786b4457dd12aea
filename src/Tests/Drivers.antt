-- ===== src/Tests/Drivers.antt =====
-- The Go drivers on a small host whose polls bring one frame each, until they fail.
use defrizer.Common.{
  ℕ, zero, suc, ◌+◌, ◌≡◌, refl, ◌⊎◌, inl, inr, List, [], ◌∷◌, true, false, Option, none, some, ◌++◌,
  minus_one, pos, ◌==◌, if◌then◌else◌,
}
use defrizer.Driver.{pure, deferring, NetInterface, find_ifindex, poll_failed}
use defrizer.Driver.Search.{Lacks, find_ifindex_lem}
use defrizer.Driver.Frames.{
  Host, TcpLayer, show_layer, show_frames, fill_free, show_received, round, rounds, serve,
  open_socket, attach_and_serve, load_and_serve, with_interface, main,
}
use defrizer.Driver.Frames.Ledger.{Ledger, blank, tracked}
use defrizer.Driver.Frames.Rounds.{lines_of}
use defrizer.Driver.Frames.Release.{main_releases}
use defrizer.Driver.Frames.Calm.{left_open}
use defrizer.Driver.Frames.Serving.{Serves, next, idle, loop_goes_on}

abbrev pub interfaces_here : List NetInterface
interfaces_here =
    record { name = "lo"; index = 1 }
    ∷ record { name = "eth0"; index = 4 }
    ∷ record { name = "eth0"; index = 5 }
    ∷ []

-- A frame is one octet, and frame 1 holds no TCP layer.
abbrev pub layer_in : List ℕ → Option TcpLayer
layer_in [] = none
layer_in (x ∷ xs) =
    if x == 1
    then none
    else some (record {
      src_port = 40000;
      dst_port = 7777;
      data_offset = 5;
      syn = false;
      fin = false;
      ack = true;
      payload = x ∷ [];
    })

abbrev poll_small : ℕ → Option ((ℕ ⊎ (ℕ × ℕ)) × ℕ)
poll_small zero = some (inl 11, 0)
poll_small (suc n) = some (inr (1, 0), n)

-- The state is the number of polls that will not fail.
abbrev small_host : Host ℕ ℕ ℕ ℕ ℕ
small_host = record {
  interfaces = pure (inr interfaces_here);
  new_program = pure (inr 7);
  close = λ p. pure none;
  attach = λ p i. pure none;
  detach = λ p i. pure none;
  new_socket = λ i q. pure (inr 9);
  fd = λ s. s;
  register = λ p q fd. pure none;
  unregister = λ p q. pure none;
  num_free_fill_slots = λ s. pure 2;
  get_descs = λ s n b. pure [];
  fill = λ s ds. pure 0;
  poll = λ s t. poll_small;
  receive = λ s n w. some (w ∷ [], w);
  get_frame = λ s d. pure (d ∷ []);
  tcp_layer = layer_in;
  printf = λ line. pure tt;
}

-- Three frames are received, and `main` ends at the fourth poll.
main_small : main small_host 4 "eth0" 0 3 ≡ some (poll_failed 11, 0)
unfolding main find_ifindex with_interface load_and_serve deferring attach_and_serve open_socket
    serve rounds round fill_free show_received show_frames show_layer
main_small = refl

main_releases_example :
    (l : Ledger ℕ) × (main (tracked small_host) 4 "eth0" 0 (3, blank)
      ≡ some (poll_failed 11, (0, l)))
    × (l.held ≡ some [])
    × (l.sockets ≡ 1)
    × (l.read ≡ l.received)
    × (l.spoiled ≡ false)
    × (l.lines ≡ lines_of layer_in l.frames)
unfolding left_open
main_releases_example = main_releases small_host 4 "eth0" 0 3 0 (poll_failed 11) main_small

two_rounds : Serves small_host 9 2 3 1
unfolding round fill_free show_received show_frames show_layer
two_rounds = next {w = 3} {w1 = 2} refl (next {w = 2} {w1 = 1} refl idle)

loop_goes_on_example :
    (l : Ledger ℕ) × Serves (tracked small_host) 9 2 (3, blank) (1, l)
    × (l.read ≡ l.received)
    × (l.spoiled ≡ false)
    × (l.lines ≡ lines_of layer_in l.frames)
    × (rounds small_host (2 + 5) 9 3 ≡ rounds small_host 5 9 1)
loop_goes_on_example = loop_goes_on small_host 9 5 2 3 1 two_rounds

find_ifindex_lem_example :
    ((find_ifindex "eth0" interfaces_here ≡ minus_one) × Lacks "eth0" interfaces_here)
    ⊎ ((before : List NetInterface) × (iface : NetInterface) × (behind : List NetInterface)
        × (interfaces_here ≡ before ++ iface ∷ behind)
        × Lacks "eth0" before
        × (iface.name ≡ "eth0")
        × (find_ifindex "eth0" interfaces_here ≡ pos iface.index))
find_ifindex_lem_example = find_ifindex_lem "eth0" interfaces_here

pub first_eth0 : find_ifindex "eth0" interfaces_here ≡ pos 4
unfolding find_ifindex
first_eth0 = refl
