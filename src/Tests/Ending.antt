-- ===== src/Tests/Ending.antt =====
-- `main` of both Go programs over links whose programs go away two seconds after they are detached:
-- the state counts the seconds left for each interface, where a hundred stands for a program that
-- stays, and the polls or reads that will not fail.
use defrizer.Common.{
  ℕ, zero, suc, ◌-◌, ◌≤◌, ◌≡◌, ◌⊎◌, refl, arith, sym, ap, inl, inr, List, [], ◌∷◌, true, false, not,
  Bool, none, some, ◌==◌, Option, if◌then◌else◌,
}
use defrizer.Link.{NetLink, NetLinkCalls}
use defrizer.Link.Removal.{IsFinal, after_looks, Settles}
use defrizer.Maps.{MapCalls, LoadedProgram, loaded}
use defrizer.Loader.Ready.{IsLoaded}
use defrizer.Driver.{pure, Exit, program_failed}
use defrizer.Driver.Returns.{Returns, returns, Answered}
use defrizer.Driver.Frames.{Host, main}
use defrizer.Driver.Frames.Settling.{Settling}
use defrizer.Driver.Linked.{Failure, elsewhere, linked}
use defrizer.Driver.Linked.Free.{IsLink}
use defrizer.Driver.Linked.Prompt.{IsPrompt}
use defrizer.Driver.Linked.Ends.{main_ends_free}
use defrizer.Maps.Ring.{EventProgram}
use defrizer.Driver.Events.{Host as EventHost, main as event_main}
use defrizer.Driver.Events.Terminate.{Draining}
use defrizer.Driver.Linked.Reader.{linked_reader}
use defrizer.Driver.Linked.Reader.Ends.{IsLoadedEvent, event_main_ends_free}
use defrizer.Tests.Drivers.{interfaces_here, first_eth0, layer_in}

abbrev Clock : Type 0
Clock = (ℕ → ℕ) × ℕ

abbrev polls_left : Clock → ℕ
polls_left w = w.1

abbrev stays : ℕ → Clock → Bool
stays i w = not (w.0 i == 0)

-- The seconds of the interface `i` set to `n`, those of the others as they are.
abbrev at : ℕ → ℕ → (ℕ → ℕ) → ℕ → ℕ
at i n seconds j = if j == i then n else seconds j

-- Programs on all interfaces, and two polls.
abbrev busy : Clock
busy = ((λ i. 100), 2)

abbrev clock_links : NetLinkCalls Clock
clock_links = record {
  link_by_index = λ w i. (inr (record { index = i; attrs = some (some (stays i w)) }), w);
  set_xdp_fd = λ w link fd. (none, (at link.index 2 (w.0), w.1));
  set_xdp_fd_with_flags = λ w link fd flags. (none, (at link.index 100 (w.0), w.1));
  sleep = λ w. ((λ i. w.0 i - 1), w.1);
}

abbrev clock_maps : MapCalls Clock
clock_maps = record {
  put = λ w fd key value. (none, w);
  delete = λ w fd key. (some 22, w);
  close = λ w fd. (none, w);
}

IsFinal-clock :
    (i : ℕ) (w : Clock)
    → w.0 i ≡ 2
    → IsFinal ((clock_links.link_by_index (after_looks clock_links i 2 w) i).0)
unfolding after_looks
IsFinal-clock i w two = rw two λ shown. cc shown

clock-Settles : (i : ℕ) → Settles clock_links i 3
clock-Settles i w w' w2 link look on p =
    let index : link.index ≡ i = sym (ap (λ x. index_of (x.0)) look) in
    let same : (i == link.index) ≡ true = ground arith in
    let two : at link.index 2 (w'.0) i ≡ 2 = rw same refl in
    let set : (at link.index 2 (w'.0), w'.1) ≡ w2 = ap (λ x. x.1) p in
    (2, omega arith, IsFinal-clock i w2 (rw (sym set) two))
  where
    index_of : ℕ ⊎ NetLink → ℕ
    index_of (inl err) = i
    index_of (inr l) = l.index

answer_keeps :
    {r r' : Option ℕ} {v w : Clock}
    → ◌≡◌ {A = Option ℕ × Clock} (r', v) (r, w)
    → polls_left w ≤ polls_left v
answer_keeps p = let e = ap (λ x. polls_left (x.1)) p in omega (arith, e)

clock-IsPrompt : IsPrompt clock_maps clock_links 3 polls_left
clock-IsPrompt = record {
  settles = clock-Settles;
  look_keeps = λ w w' i r p. let e = ap (λ x. polls_left (x.1)) p in omega (arith, e);
  set_keeps = λ w w' link r p. answer_keeps p;
  set_flags_keeps = λ w w' link fd flags r p. answer_keeps p;
  sleep_keeps = λ w. omega arith;
  put_keeps = λ w w' fd key value r p. answer_keeps p;
  delete_keeps = λ w w' fd key r p. answer_keeps p;
  close_keeps = λ w fd. omega arith;
}

clock-IsLink : IsLink clock_links clock_maps 4 (stays 4)
clock-IsLink = record {
  look = λ w. (
    record { index = 4; attrs = some (some (stays 4 w)) },
    w,
    refl,
    ((λ shown. cc shown), (λ on. rw on refl)),
    refl,
  );
  unset = λ v w link p on. (_, refl);
  set_refused = λ v w w' link fd flags err p q. absurd (cc q);
  close_leaves = λ w fd. refl;
}

abbrev poll_clock : Clock → Option ((Failure ℕ ⊎ (ℕ × ℕ)) × Clock)
poll_clock (s, zero) = some (inl (elsewhere 4), (s, 0))
poll_clock (s, suc n) = some (inr (1, 0), (s, n))

abbrev clock_host : Host Clock LoadedProgram ℕ ℕ (Failure ℕ)
clock_host = record {
  interfaces = pure (inr interfaces_here);
  new_program = pure (inr (loaded 6 4 5));
  close = λ p. pure none;
  attach = λ p i. pure none;
  detach = λ p i. pure none;
  new_socket = λ i q. pure (inr 9);
  fd = λ s. s;
  register = λ p q fd. pure none;
  unregister = λ p q. pure none;
  num_free_fill_slots = λ s. pure 2;
  get_descs = λ s n b. pure (0 ∷ []);
  fill = λ s ds. pure 1;
  poll = λ s t. poll_clock;
  receive = λ s n. pure (7 ∷ []);
  get_frame = λ s d. pure (d ∷ []);
  tcp_layer = layer_in;
  printf = λ line. pure tt;
}

clock_host-Settling : Settling clock_host polls_left IsLoaded
clock_host-Settling = record {
  interfaces_back = λ w. returns (omega arith);
  new_program_back = λ w. returns (omega arith, (6, 4, 5, refl));
  close_back = λ p w. returns (omega arith);
  attach_back = λ p _ i w. returns (omega arith);
  detach_back = λ p i w. returns (omega arith);
  new_socket_back = λ i q w. returns (omega arith);
  register_back = λ p _ q fd w. returns (omega arith);
  unregister_back = λ p _ q w. returns (omega arith);
  slots_back = λ s w. returns (omega arith);
  descs_back = λ s n b w. returns (omega arith);
  fill_back = λ s ds w. returns (omega arith);
  poll_back = λ s t w. polls w;
  receive_back = λ s n w. returns (omega arith);
  frame_back = λ s d w. returns (omega arith);
  printf_back = λ x w. returns (omega arith);
}
  where
    polls : (w : Clock) → Returns (Answered polls_left w) (poll_clock w)
    polls (s, zero) = returns (omega arith)
    polls (s, suc n) = returns (omega arith)

main_ends_free_example :
    (exit : Exit (Failure ℕ)) × (w' : Clock) × (main
        (linked clock_maps clock_links 3 clock_host)
        3
        "eth0"
        0
        busy
      ≡ some (exit, w'))
    × (((err : Failure ℕ) × (exit ≡ program_failed err)) ⊎ (stays 4 w' ≡ false))
main_ends_free_example =
    main_ends_free clock-IsPrompt clock_host clock_host-Settling 0 "eth0" interfaces_here busy busy
      clock-IsLink refl first_eth0

abbrev read_clock : Clock → Option ((Failure ℕ ⊎ List ℕ) × Clock)
read_clock (s, zero) = some (inl (elsewhere 4), (s, 0))
read_clock (s, suc n) = some (inr (n ∷ []), (s, n))

abbrev clock_reader : EventHost Clock EventProgram ℕ (Failure ℕ)
clock_reader = record {
  remove_memlock = pure none;
  interfaces = pure (inr interfaces_here);
  new_program = pure (inr (record { program = some 6; events = some 5 }));
  close = λ p. pure none;
  attach = λ p i. pure none;
  detach = λ p i. pure none;
  new_reader = λ p. pure (inr 3);
  close_reader = λ rd. pure none;
  read = λ rd. read_clock;
  println = λ sample. pure tt;
}

clock_reader-Draining : Draining clock_reader polls_left IsLoadedEvent
clock_reader-Draining = record {
  memlock_back = λ w. returns (omega arith);
  interfaces_back = λ w. returns (omega arith);
  new_program_back = λ w. returns (omega arith, (6, 5, refl));
  close_back = λ p w. returns (omega arith);
  attach_back = λ p _ i w. returns (omega arith);
  detach_back = λ p i w. returns (omega arith);
  new_reader_back = λ p _ w. returns (omega arith);
  close_reader_back = λ rd w. returns (omega arith);
  read_back = λ rd w. reads w;
  println_back = λ sample w. returns (omega arith);
}
  where
    reads : (w : Clock) → Returns (Answered polls_left w) (read_clock w)
    reads (s, zero) = returns (omega arith)
    reads (s, suc n) = returns (omega arith)

event_main_ends_free_example :
    (exit : Exit (Failure ℕ)) × (w' : Clock) × (event_main
        (linked_reader clock_maps clock_links 3 clock_reader)
        3
        "eth0"
        busy
      ≡ some (exit, w'))
    × (((err : Failure ℕ) × (exit ≡ program_failed err)) ⊎ (stays 4 w' ≡ false))
event_main_ends_free_example =
    event_main_ends_free clock-IsPrompt clock_reader clock_reader-Draining "eth0" interfaces_here
      busy busy busy clock-IsLink refl refl first_eth0
