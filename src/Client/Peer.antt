-- ===== src/Client/Peer.antt =====
-- A peer that answers, and a record of what the client sends.
use Prim.Native.String.{String, len, ◌++◌ as str_append}
use defrizer.Common.{ℕ, ◌+◌, ◌%◌, ◌^◌, ◌≡◌, List, [], ◌∷◌, Bool, true, false, ◌++◌, if◌then◌else◌}
use defrizer.Client.{Segment, Reply, tcp_reply, Network, Output, decimal}
use defrizer.Driver.Returns.{Returns, Whatever}
use defrizer.Driver.Track.{noting}

-- The number that acknowledges a segment as a whole: SYN and FIN count as one octet each.
unfoldable pub acknowledged : Segment → ℕ
acknowledged x =
    (x.seq + (if x.syn then 1 else 0) + len (x.payload) + (if x.fin then 1 else 0)) % 2 ^ 32

-- `sr1` returns a segment that acknowledges the one that was sent, and the other calls come back.
pub record Answers {W : Type 0} (net : Network W) : Type 0 where
  pub answered :
      (x : Segment) (w : W)
      → Returns
          (λ reply _. (r : Segment) × (reply ≡ tcp_reply r) × (r.ack_number ≡ acknowledged x))
          (net.sr1 x w)
  pub sent : (x : Segment) (w : W) → Returns Whatever (net.send x w)
  pub printed : (o : Output) (w : W) → Returns Whatever (net.print o w)

-- What goes over the network, in order.
pub data Exchange : Type 0 where
  asked : Segment → Reply → Exchange
  told : Segment → Exchange

unfoldable pub recorded : {W : Type 0} → Network W → Network (W × List Exchange)
recorded net = record {
  sr1 = λ x. noting (net.sr1 x) (λ reply l. l ++ asked x reply ∷ []);
  send = λ x. noting (net.send x) (λ _ l. l ++ told x ∷ []);
  print = λ o. noting (net.print o) (λ _ l. l);
}

-- The segments that the client is to send, field by field. A SYN has no number to acknowledge and
-- carries the payload as the experimental TCP option 253.
abbrev pub syn_segment : ℕ → ℕ → String → ℕ → ℕ → String → Segment
syn_segment initial_seq initial_ack ip dport sport payload = record {
  destination = ip;
  sport = sport;
  dport = dport;
  seq = initial_seq;
  ack_number = initial_ack;
  syn = true;
  fin = false;
  ack = false;
  options = (253, payload) ∷ [];
  payload = "";
}

-- Every other segment answers a segment `r` of the peer: it has the flag ACK, starts at the number
-- that `r` acknowledges and acknowledges the number behind that of `r`.
abbrev pub sequel : Bool → String → ℕ → ℕ → Segment → String → Segment
sequel fin ip dport sport r payload = record {
  destination = ip;
  sport = sport;
  dport = dport;
  seq = r.ack_number;
  ack_number = r.seq + 1;
  syn = false;
  fin = fin;
  ack = true;
  options = [];
  payload = payload;
}

-- The text that asks the host `ip` at `port` for a function.
abbrev pub request_text : String → ℕ → String → String
request_text ip port name =
    let behind_host = str_append ":" (str_append (decimal 5 port) "\r\n\r\n") in
    let host = str_append "?namespace=openfaas-fn HTTP/1.1\r\nHost: " (str_append ip behind_host) in
    str_append "GET /function/" (str_append name host)
