-- ===== src/Driver/Frames/Ledger.antt =====
-- A ledger of what `main` of dumpframes/src/dumpframes.go is to release, receives and prints.
use defrizer.Common.{
  ℕ, ◌+◌, ◌-◌, ◌⊎◌, inl, inr, List, [], ◌∷◌, ◌++◌, Bool, false, Option, none, some, length, ◌==◌,
  ◌||◌, not,
}
use defrizer.Driver.Held.{Held, Resource, program, link, queue, take_up, give_back}
use defrizer.Driver.Track.{noting}
use defrizer.Driver.Frames.{Host, Line, waiting, tcp_header, tcp_data}

pub record Ledger (D : Type 0) : Type 0 where
  pub held : Held
  -- how many AF_XDP sockets were opened: no call of `main` closes one
  pub sockets : ℕ
  -- the descriptors that came from the Rx ring, and those whose frames were read, in order
  pub received : List D
  pub read : List D
  -- how many received descriptors are unread, and whether the Fill ring was filled while some were
  pub unread : ℕ
  pub spoiled : Bool
  -- the frames that were read, and the lines about segments
  pub frames : List (List ℕ)
  pub lines : List Line

abbrev pub blank : {D : Type 0} → Ledger D
blank = record {
  held = some [];
  sockets = 0;
  received = [];
  read = [];
  unread = 0;
  spoiled = false;
  frames = [];
  lines = [];
}

module _ {D E : Type 0} where
  -- A call that takes something up if it returns no error, and one that releases it, whatever it returns.
  abbrev pub taken : Resource → Option E → Ledger D → Ledger D
  taken r none l = record l { held = take_up r l.held }
  taken r (some err) l = l

  abbrev pub loaded : {P : Type 0} → E ⊎ P → Ledger D → Ledger D
  loaded (inl err) l = l
  loaded (inr p) l = record l { held = take_up program l.held }

  abbrev pub opened : {S : Type 0} → E ⊎ S → Ledger D → Ledger D
  opened (inl err) l = l
  opened (inr s) l = record l { sockets = l.sockets + 1 }

  abbrev pub returned : Resource → Option E → Ledger D → Ledger D
  returned r failure l = record l { held = give_back r l.held }

module _ {D : Type 0} where
  abbrev pub filled : ℕ → Ledger D → Ledger D
  filled n l = record l { spoiled = l.spoiled || not (l.unread == 0) }

  abbrev pub came : List D → Ledger D → Ledger D
  came ds l = record l { received = l.received ++ ds; unread = l.unread + length ds }

  abbrev pub looked_at : D → List ℕ → Ledger D → Ledger D
  looked_at d frame l = record l {
    read = l.read ++ d ∷ [];
    unread = l.unread - 1;
    frames = l.frames ++ frame ∷ [];
  }

  abbrev pub said : Line → Ledger D → Ledger D
  said x l = record l { lines = l.lines ++ x ∷ [] }

  abbrev pub printed : Line → Ledger D → Ledger D
  printed waiting l = l
  printed (tcp_header t) l = said (tcp_header t) l
  printed (tcp_data xs) l = said (tcp_data xs) l

-- The same calls, with the ledger.
unfoldable pub tracked : {W P S D E : Type 0} → Host W P S D E → Host (W × Ledger D) P S D E
tracked h = record {
  interfaces = noting h.interfaces (λ _ l. l);
  new_program = noting h.new_program loaded;
  close = λ p. noting (h.close p) (returned program);
  attach = λ p i. noting (h.attach p i) (taken (link i));
  detach = λ p i. noting (h.detach p i) (returned (link i));
  new_socket = λ i q. noting (h.new_socket i q) opened;
  fd = h.fd;
  register = λ p q fd. noting (h.register p q fd) (taken (queue q));
  unregister = λ p q. noting (h.unregister p q) (returned (queue q));
  num_free_fill_slots = λ s. noting (h.num_free_fill_slots s) (λ _ l. l);
  get_descs = λ s n rx. noting (h.get_descs s n rx) (λ _ l. l);
  fill = λ s ds. noting (h.fill s ds) (filled);
  poll = λ s t. noting (h.poll s t) (λ _ l. l);
  receive = λ s n. noting (h.receive s n) (came);
  get_frame = λ s d. noting (h.get_frame s d) (looked_at d);
  tcp_layer = h.tcp_layer;
  printf = λ line. noting (h.printf line) (λ _ l. printed line l);
}
