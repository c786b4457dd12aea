-- ===== src/Tests/Client.antt =====
-- The client of client/main.py against a peer that answers every segment.
use defrizer.Common.{
  ℕ, zero, suc, ◌+◌, ◌≡◌, ◌⊎◌, refl, inr, List, [], ◌∷◌, true, false, inl, Option, none, some,
}
use defrizer.Client.{
  Segment, Reply, Raised, type_error, no_reply, tcp_reply, tcp_of, send_tcp_syn,
  send_http_get_request, Network, decimal, client,
}
use defrizer.Client.Peer.{
  acknowledged, Answers, asked, told, recorded, Exchange, syn_segment, sequel, request_text,
}
use defrizer.Client.Converse.{client_converses}
use defrizer.Client.Ending.{ComesBack, Ending, client_lem}
use defrizer.Driver.{pure}
use defrizer.Driver.Returns.{Returns, returns, Whatever}

port_decimal : decimal 5 8080 ≡ "8080"
unfolding decimal
port_decimal = refl

-- The state is the peer's next sequence number.
abbrev polite : Network ℕ
polite = record {
  sr1 = λ x w. some (
    tcp_reply (record {
      destination = "";
      sport = x.dport;
      dport = x.sport;
      seq = w;
      ack_number = acknowledged x;
      syn = x.syn;
      fin = x.fin;
      ack = true;
      options = [];
      payload = "";
    }),
    w + 1,
  );
  send = λ x. pure tt;
  print = λ o. pure tt;
}

polite-Answers : Answers polite
polite-Answers = record {
  answered = λ x w. returns (_, refl, refl);
  sent = λ x w. returns tt;
  printed = λ o w. returns tt;
}

client_converses_example :
    (syn : Segment) × (get : Segment) × (fin : Segment) × (last : Segment) × (a : Segment)
    × (b : Segment) × (c : Segment) × (w' : ℕ) × (client
          (recorded polite)
          0
          0
          "10.0.0.2"
          8080
          110
          "env"
          (500, [])
        ≡ some (
          inr tt,
          (
            w',
            asked syn (tcp_reply a)
                ∷ asked get (tcp_reply b)
                ∷ asked fin (tcp_reply c)
                ∷ told last
                ∷ [],
          ),
        ))
    × (get.seq ≡ acknowledged syn)
    × (fin.seq ≡ acknowledged get)
    × (last.seq ≡ acknowledged fin)
    × (get.ack_number ≡ a.seq + 1)
    × (fin.ack_number ≡ b.seq + 1)
    × (last.ack_number ≡ c.seq + 1)
    × (syn ≡ syn_segment 0 0 "10.0.0.2" 8080 110 "env")
    × (get ≡ sequel false "10.0.0.2" 8080 110 a (request_text "10.0.0.2" 8080 "env"))
    × (fin ≡ sequel true "10.0.0.2" 8080 110 b "")
    × (last ≡ sequel false "10.0.0.2" 8080 110 c "")
client_converses_example = client_converses polite polite-Answers 0 0 "10.0.0.2" 8080 110 "env" 500

-- A peer that falls silent: the state counts the segments that it still answers.
abbrev silent : ℕ → Segment → Option (Reply × ℕ)
silent zero x = some (no_reply, 0)
silent (suc n) x = elim (polite.sr1 x n) [ none ↦ none | some (reply, _) ↦ some (reply, n) ]

abbrev tiring : Network ℕ
tiring = record polite { sr1 = λ x w. silent w x }

tiring-ComesBack : ComesBack tiring
tiring-ComesBack = record {
  heard = λ x w. answers w x;
  sent = λ x w. returns tt;
  printed = λ o w. returns tt;
}
  where
    answers : (w : ℕ) (x : Segment) → Returns Whatever (silent w x)
    answers zero x = returns tt
    answers (suc n) x = returns tt

client_lem_example :
    (out : Raised ⊎ Unit {0}) × (w' : ℕ) × (l : List Exchange) × (client
        (recorded tiring)
        0
        0
        "10.0.0.2"
        8080
        110
        "env"
        (1, [])
      ≡ some (out, (w', l)))
    × Ending "10.0.0.2" 8080 110 0 0 "env" out l
client_lem_example = client_lem tiring tiring-ComesBack 0 0 "10.0.0.2" 8080 110 "env" 1

-- The request gets no reply.
client_tires : client tiring 0 0 "10.0.0.2" 8080 110 "env" 1 ≡ some (inl type_error, 0)
unfolding client send_tcp_syn send_http_get_request tcp_of
client_tires = refl
