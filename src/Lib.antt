-- ===== src/Lib.antt =====
-- A model of defrizer's XDP programs, which watch a network interface for TCP segments to port
-- 7777, of the Go programs that load them and of the client.
--
-- The repository has two variants of one program, each with its own copy of a header of parsers.
-- dumpframes/src/ebpf/tcp_syn_kern.c redirects such segments to an AF_XDP socket (xdp_sock_prog);
-- perf_event/src/ebpf/tcp_syn_kern.c announces them on a ring buffer (perf_event_test). Both take a
-- packet apart by the parsers of tcp_syn_kern.h, which compare with constants converted by
-- include/bpf/bpf_endian.h, and both are compiled for little-endian and for big-endian targets.
--
-- Which file models what:
-- Common: names of the libraries, Boolean tests, lists, C integers, words, laws of bit operations.
-- Endian: the macros of bpf_endian.h (`bpf_htons` and the others, `bpf_swab16` to `bpf_swab64`);
--   the flag of a macro is `__builtin_constant_p`. Endian.Swap and Endian.Laws are about them.
-- Uapi: the kernel headers that the repository does not hold, as a parameter: sizes, offsets,
--   protocol numbers. `IsLayout` states what the programs rely on, `linux` gives the documented
--   values.
-- Memory: `struct xdp_md` and loads from the packet. A load outside the packet is a fault, `none`.
-- Parse: the parsers of tcp_syn_kern.h, named as there; `nh.pos` is passed in and returned as
--   `cursor`. Parse.Vlan, Parse.Refine and Parse.Link relate them to the layers of Spec,
--   Parse.Bounds is about how far they move.
-- Spec: the specification. Spec.Layers takes a list of octets apart layer by layer, with no
--   pointers and no byte order; Spec.Policy says what each program does with the verdict.
-- Program: Program.Sock is xdp_sock_prog, Program.Event is perf_event_test, Program.Action the enum
--   xdp_action of bpf.h. Program.Walk is about what the two programs share. Program.Redirects is
--   about the frames that xdp_sock_prog redirects, Program.Delivery about whole segments, encoded
--   by Spec.Frame, Program.Agreement sets the two programs side by side.
-- Maps: the map definitions of dumpframes/src/ebpf/tcp_syn_kern.c, and `Register`, `Unregister` and
--   `Close` of dumpframes/program.go, which keep the maps; Maps.Ring the ring buffer of the other
--   variant and its `Close`. Maps.Kernel states the documented behaviour of the kernel's maps, a
--   hypothesis of Maps.Served and Maps.Serve: there the loader's calls and the packets of
--   xdp_sock_prog are steps between states of the kernel; packets may also arrive between the two
--   updates of a `Register`.
-- Link: `Attach`, `Detach`, `removeProgram` and the others of dumpframes/program.go that speak to
--   netlink. The loop of `removeProgram` looks at the link until the program is gone: it takes
--   fuel. Link.Removal is about its end.
-- Bytecode: the program that `NewProgram` of dumpframes/program.go assembles, on a machine for the
--   instructions that it uses, with typed values and faults; 20 steps of fuel exceed its length,
--   and it has no backward jump. Bytecode.Redirects is about its runs, Bytecode.Agreement sets it
--   beside xdp_sock_prog.
-- Loader: `NewProgram` and `LoadProgram` of dumpframes/program.go, and `NewTCPSynProgram` of
--   src/ebpf/tcp_syn_kern.go of both variants, over the calls of the ebpf library and the generated
--   bindings. Loader.Ready is about what they return, Loader.Handles about the handles that
--   `NewProgram` makes.
-- Driver: `main` of both Go programs, dumpframes/src/dumpframes.go (Driver.Frames) and
--   perf_event/src/dumpframes.go (Driver.Events). A call is a step on the state of the world or
--   does not come back; the calls of each `main` are the fields of a record `Host`, and a deferred
--   call runs behind the rest of the body (`deferring`). Ledger runs the same code beside a record
--   of its calls (Driver.Held is what is to be released, Calm the record between rounds),
--   Driver.Track is about such pairs of runs, Release, Rounds and Serving about what is held, read
--   and printed, Terminate about calls that all come back; Driver.Search is the search for the
--   interface. Driver.Linked puts the methods of `Program` of Maps and Link in the place of the
--   host's calls, and is about packets while the loop runs (Driver.Linked.Diverts and Polled, over
--   Driver.Frames.Polled) and about the link at the end of both programs (Driver.Linked.Free, Body,
--   Frees, Prompt, Ends and Reader; `IsLink` states what netlink documents, `IsPrompt` that the
--   calls come back); Driver.Xsk is about the frames between xdp_sock_prog and the loop, with the
--   documented behaviour of an AF_XDP socket as `IsXsk`; Driver.Ensures is about runs that may not
--   come back; Driver.Ring runs the loop of perf_event/src/dumpframes.go where batches of frames
--   for perf_event_test arrive before each of its calls (Driver.Ring.Due and Arrive), with the
--   documented behaviour of the ring buffer as `IsRing`.
-- Client: client/main.py, the TCP client, over the calls of scapy. Client.Peer has the segments
--   that the client is to send, field by field, a peer that answers every segment and a record of
--   the exchange; Client.Ending is about any peer; Client.Pad is about `pad`.
-- Helpers: the declarations of include/bpf/bpf_helper_defs.h, as data, and the numbers that
--   include/bpf/bpf.h gives the same helpers. Helpers.Laws and Helpers.Results compare them. The
--   machine of Bytecode finds the helper that is called, its arguments and the kind of its result
--   in these declarations.
-- Tests: runs on concrete packets, and each property at a concrete input.
--
-- The state of the kernel's maps, of the trace and of the ring buffer is an abstract type `W`; the
-- BPF helpers are records of functions on it (`SockHelpers`, `EventHelpers`). Pointers are 64-bit
-- numbers and their sums wrap; `IsPlaced` says that no packet lies within 64 KiB of the top of the
-- address space. The loop over VLAN tags runs at most VLAN_MAX_DEPTH = 2 times, by recursion on the
-- rounds left. The wait of Link takes fuel: it is enough if the kernel detaches a program within as
-- many looks. The endless loops of Driver take fuel, the rounds of the loop: one more than the
-- rounds that do not fail is enough. A Go panic on a nil map or program is a call that does not
-- come back; those that `main` makes itself are ways to end. A port has at most the five digits
-- that Client prints; `pad` of Client takes the rounds of its loop. A map's contents do not change
-- while a program runs.
--
-- Not modelled: the kernel and its verifier; the AF_XDP socket library in xdp.go, a copy of another
-- project, whose calls are parameters; generated bindings, but for the fields that they fill in;
-- the rest of the kernel's and libbpf's headers, which the programs do not use; the handler of the
-- server, which returns its argument.
pub mod Common
pub mod Endian
pub mod Uapi
pub mod Memory
pub mod Parse
pub mod Spec
pub mod Program
pub mod Tests
pub mod Helpers
pub mod Maps
pub mod Link
pub mod Driver
pub mod Client
pub mod Bytecode
pub mod Loader
