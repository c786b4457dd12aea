-- ===== src/Client.antt =====
-- client/main.py: the client that asks for a function over a TCP connection of its own making.
pub mod Peer
pub mod Converse
pub mod Pad
pub mod Ending
use Prim.Native.String.{String, slice, ◌++◌ as str_append}
use defrizer.Common.{
  ℕ, zero, suc, ◌+◌, ◌%◌, ◌≡◌, ◌⊎◌, inl, inr, List, [], ◌∷◌, Bool, true, false, Option, none, some,
  ltb, length, ◌==◌, ◌++◌, ◌/◌,
}
use defrizer.Driver.{Run, pure, ◌>>=◌, ◌>>◌, either}

-- A TCP segment to `destination`, with the fields that the client sets or reads.
pub record Segment : Type 0 where
  pub destination : String
  pub sport : ℕ
  pub dport : ℕ
  pub seq : ℕ
  pub ack_number : ℕ
  pub syn : Bool
  pub fin : Bool
  pub ack : Bool
  pub options : List (ℕ × String)
  pub payload : String

-- What `sr1` returns: nothing, a packet with no TCP layer, or a segment.
pub data Reply : Type 0 where
  no_reply : Reply
  other_reply : Reply
  tcp_reply : Segment → Reply

pub data Output : Type 0 where
  options_of : Segment → Output
  raw_of : Segment → Output
  message : String → Output

-- The exceptions that indexing a reply raises.
pub data Raised : Type 0 where
  type_error : Raised
  index_error : Raised

-- The calls of scapy and of the output.
pub record Network (W : Type 0) : Type 0 where
  pub sr1 : Segment → Run W Reply
  pub send : Segment → Run W (Unit {0})
  pub print : Output → Run W (Unit {0})

-- `reply[TCP]`
unfoldable pub tcp_of : Reply → Raised ⊎ Segment
tcp_of no_reply = inl type_error
tcp_of other_reply = inl index_error
tcp_of (tcp_reply r) = inr r

-- The message about the reply to the request.
unfoldable pub verdict : Reply → String
verdict no_reply = "No response received."
verdict other_reply = "HTTP GET request successful!"
verdict (tcp_reply r) = "HTTP GET request successful!"

-- A digit, and a number in decimal digits, of which there are at most `fuel`.
abbrev pub digit : ℕ → String
digit n = slice "0123456789" n (suc n)

unfoldable pub decimal : ℕ → ℕ → String
decimal zero n = ""
decimal (suc fuel) n = elim (ltb n 10) [
  | true ↦ digit n
  | false ↦ str_append (decimal fuel (n / 10)) (digit (n % 10))
]

-- The request for the function `payload`; a port has at most five digits.
unfoldable pub http_get : String → ℕ → String → String
http_get ip port payload = str_append "GET /function/" (
    str_append payload (
      str_append "?namespace=openfaas-fn HTTP/1.1\r\nHost: "
        (str_append ip (str_append ":" (str_append (decimal 5 port) "\r\n\r\n")))))

-- `initial_seq` and `initial_ack` are the numbers that scapy sends where none is given.
module _ (initial_seq initial_ack : ℕ) where
  unfoldable pub syn_packet : String → ℕ → ℕ → String → Segment
  syn_packet ip dport sport payload = record {
    destination = ip;
    sport = sport;
    dport = dport;
    seq = initial_seq;
    ack_number = initial_ack;
    syn = true;
    fin = false;
    ack = false;
    options = (253, payload) ∷ [];
    payload = "";
  }

-- A segment with the flag ACK, and with FIN where `fin` says so.
unfoldable pub ack_packet : Bool → String → ℕ → ℕ → ℕ → ℕ → String → Segment
ack_packet fin ip dport sport acknowledgment_number sequence_number payload = record {
  destination = ip;
  sport = sport;
  dport = dport;
  seq = sequence_number;
  ack_number = acknowledgment_number;
  syn = false;
  fin = fin;
  ack = true;
  options = [];
  payload = payload;
}

-- The numbers behind a reply: those to acknowledge and to send next.
abbrev pub numbers : Segment → ℕ × ℕ
numbers r = (r.seq + 1, r.ack_number)

module _ {W : Type 0} (net : Network W) where
  -- The result is the pair of `acknowledgment_number` and `sequence_number`.
  unfoldable pub send_tcp_syn : ℕ → ℕ → String → ℕ → ℕ → String → Run W (Raised ⊎ (ℕ × ℕ))
  send_tcp_syn initial_seq initial_ack ip dport sport payload = do
    net.print (options_of (syn_packet initial_seq initial_ack ip dport sport payload))
    net.print (raw_of (syn_packet initial_seq initial_ack ip dport sport payload))
    response ← net.sr1 (syn_packet initial_seq initial_ack ip dport sport payload)
    either (tcp_of response) (λ err. pure (inl err)) (λ r. pure (inr (numbers r)))

  -- From the FIN on.
  unfoldable pub close_connection : String → ℕ → ℕ → ℕ × ℕ → Run W (Raised ⊎ Unit {0})
  close_connection ip dport sport (acknowledgment_number, sequence_number) = do
    finack ← net.sr1 (ack_packet true ip dport sport acknowledgment_number sequence_number "")
    either (tcp_of finack) (λ err. pure (inl err))
        (λ r. do
          net.send (ack_packet false ip dport sport (r.seq + 1) r.ack_number "")
          pure (inr tt))

  unfoldable pub send_http_get_request : String → ℕ → ℕ → ℕ × ℕ → String → Run W (Raised ⊎ Unit {0})
  send_http_get_request ip dport sport (acknowledgment_number, sequence_number) payload = do
    response ← net.sr1 (
        ack_packet false ip dport sport acknowledgment_number sequence_number
          (http_get ip dport payload))
    net.print (message (verdict response))
    either (tcp_of response) (λ err. pure (inl err))
        (λ r. close_connection ip dport sport (numbers r))

  -- The main program, with its addresses.
  unfoldable pub client : ℕ → ℕ → String → ℕ → ℕ → String → Run W (Raised ⊎ Unit {0})
  client initial_seq initial_ack ip dport sport payload = do
    opened ← send_tcp_syn initial_seq initial_ack ip dport sport payload
    either opened (λ err. pure (inl err)) (λ ns. send_http_get_request ip dport sport ns payload)

-- `pad`, on the octets of the text, for at most `fuel` rounds of its loop.
unfoldable pub pad : ℕ → List ℕ → Option (List ℕ)
pad zero payload = none
pad (suc fuel) payload = elim (length payload == 8) [
  | true ↦ some payload
  | false ↦ pad fuel (payload ++ 0 ∷ [])
]
