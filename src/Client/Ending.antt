-- ===== src/Client/Ending.antt =====
-- The client against a peer that may answer with anything, or with nothing: how it ends.
use Prim.Native.String.{String}
use defrizer.Common.{ℕ, ◌≡◌, refl, ◌∙◌, ◌⊎◌, inl, inr, List, [], ◌∷◌, ◌++◌, true, false, some}
use defrizer.Client.{
  Segment, Reply, no_reply, other_reply, tcp_reply, Output, options_of, raw_of, message, verdict,
  Raised, type_error, index_error, Network, tcp_of, http_get, syn_packet, ack_packet, numbers,
  send_tcp_syn, close_connection, send_http_get_request, client,
}
use defrizer.Client.Peer.{Exchange, asked, told, recorded, syn_segment, sequel, request_text}
use defrizer.Driver.{pure, either}
use defrizer.Driver.Returns.{
  Returns, returns, Returns-bind, Returns-map, Returns-result, noting-Returns, Whatever,
}

-- All calls come back, `sr1` with or without a reply.
pub record ComesBack {W : Type 0} (net : Network W) : Type 0 where
  pub heard : (x : Segment) (w : W) → Returns Whatever (net.sr1 x w)
  pub sent : (x : Segment) (w : W) → Returns Whatever (net.send x w)
  pub printed : (o : Output) (w : W) → Returns Whatever (net.print o w)

-- The exception that indexing a reply raises, where it is not a TCP segment.
pub data Bad : Reply → Raised → Type 0 where
  missing : Bad no_reply type_error
  not_tcp : Bad other_reply index_error

Reply-cases :
    (reply : Reply)
    → ((r : Segment) × (reply ≡ tcp_reply r))
      ⊎ ((err : Raised) × Bad reply err × (tcp_of reply ≡ inl err))
unfolding tcp_of
Reply-cases no_reply = inr (type_error, missing, refl)
Reply-cases other_reply = inr (index_error, not_tcp, refl)
Reply-cases (tcp_reply r) = inl (r, refl)

module _ (ip : String) (dport sport : ℕ) where
  -- From the FIN on, behind the reply `b` and the exchanges `l`: an exception at the reply to the FIN,
  -- or the last acknowledgement.
  pub data Closes (b : Segment) (l : List Exchange)
      : Raised ⊎ Unit {0} → List Exchange → Type 0 where
    fin_unanswered :
        (reply : Reply) {err : Raised} {l' : List Exchange}
        → Bad reply err
        → l' ≡ l ++ asked (sequel true ip dport sport b "") reply ∷ []
        → Closes b l (inl err) l'
    closed :
        (c : Segment) {l' : List Exchange}
        → l'
          ≡ (l ++ asked (sequel true ip dport sport b "") (tcp_reply c) ∷ [])
            ++ told (sequel false ip dport sport c "") ∷ []
        → Closes b l (inr tt) l'

  -- From the request on, behind the reply `a`.
  pub data Requests (payload : String) (a : Segment) (l : List Exchange)
      : Raised ⊎ Unit {0} → List Exchange → Type 0 where
    request_unanswered :
        (reply : Reply) {err : Raised} {l' : List Exchange}
        → Bad reply err
        → l' ≡ l ++ asked (sequel false ip dport sport a (request_text ip dport payload)) reply ∷ []
        → Requests payload a l (inl err) l'
    requested :
        (b : Segment) {out : Raised ⊎ Unit {0}} {l' : List Exchange}
        → Closes b
            (l
              ++ asked (sequel false ip dport sport a (request_text ip dport payload)) (tcp_reply b)
                ∷ [])
            out
            l'
        → Requests payload a l out l'

  -- From the start.
  pub data Ending (initial_seq initial_ack : ℕ) (payload : String)
      : Raised ⊎ Unit {0} → List Exchange → Type 0 where
    syn_unanswered :
        (reply : Reply) {err : Raised} {l : List Exchange}
        → Bad reply err
        → l ≡ asked (syn_segment initial_seq initial_ack ip dport sport payload) reply ∷ []
        → Ending initial_seq initial_ack payload (inl err) l
    opened :
        (a : Segment) {out : Raised ⊎ Unit {0}} {l : List Exchange}
        → Requests payload a
            (asked (syn_segment initial_seq initial_ack ip dport sport payload) (tcp_reply a) ∷ [])
            out
            l
        → Ending initial_seq initial_ack payload out l

module _ {W : Type 0} (net : Network W) (back : ComesBack net) where
  asked-Returns :
      (x : Segment) (w : W) (l : List Exchange)
      → Returns (λ reply s. s.1 ≡ l ++ asked x reply ∷ []) ((recorded net).sr1 x (w, l))
  unfolding recorded
  asked-Returns x w l =
      noting-Returns (net.sr1 x) (λ reply l'. l' ++ asked x reply ∷ []) w l (back.heard x w)
        λ reply w' _. refl

  printed-Returns :
      (o : Output) (w : W) (l : List Exchange)
      → Returns (λ _ s. s.1 ≡ l) ((recorded net).print o (w, l))
  unfolding recorded
  printed-Returns o w l =
      noting-Returns (net.print o) (λ _ l'. l') w l (back.printed o w) λ _ w' _. refl

  told-Returns :
      (x : Segment) (w : W) (l : List Exchange)
      → Returns (λ _ s. s.1 ≡ l ++ told x ∷ []) ((recorded net).send x (w, l))
  unfolding recorded
  told-Returns x w l =
      noting-Returns (net.send x) (λ _ l'. l' ++ told x ∷ []) w l (back.sent x w) λ _ w' _. refl

  close_connection-Closes :
      (ip : String) (dport sport : ℕ) (b : Segment) (w : W) (l : List Exchange)
      → Returns
          (λ out s. Closes ip dport sport b l out (s.1))
          (close_connection (recorded net) ip dport sport (numbers b) (w, l))
  unfolding close_connection tcp_of ack_packet
  close_connection-Closes ip dport sport b w l =
      Returns-bind _ (asked-Returns (sequel true ip dport sport b "") w l) λ reply s1 l1.
        elim (Reply-cases reply) [
          | inl (c, e) ↦ rw e (
              Returns-bind _ (told-Returns (sequel false ip dport sport c "") (s1.0) (s1.1))
                λ _ s2 l2. returns (closed c (rw (l2, l1, e) refl)))
          | inr (err, bad, e) ↦ rw e (returns (fin_unanswered reply bad l1))
        ]

  request-Requests :
      (ip : String) (dport sport : ℕ) (payload : String) (a : Segment) (w : W) (l : List Exchange)
      → Returns
          (λ out s. Requests ip dport sport payload a l out (s.1))
          (send_http_get_request (recorded net) ip dport sport (numbers a) payload (w, l))
  unfolding send_http_get_request tcp_of ack_packet http_get
  request-Requests ip dport sport payload a w l =
      let get = sequel false ip dport sport a (request_text ip dport payload) in
      Returns-bind _ (asked-Returns get w l) λ reply s1 l1.
        Returns-bind _ (printed-Returns (message (verdict reply)) (s1.0) (s1.1)) λ _ s2 l2.
          elim (Reply-cases reply) [
            | inl (b, e) ↦ rw e (
                Returns-map (close_connection-Closes ip dport sport b (s2.0) (s2.1)) λ out s3 ended.
                  let same : s2.1 ≡ l ++ asked get (tcp_reply b) ∷ [] = rw (l2, l1, e) refl in
                  requested b (rw same at ended))
            | inr (err, bad, e) ↦ rw e (returns (request_unanswered reply bad (l2 ∙ l1)))
          ]

  -- After the SYN.
  data Opens (x : Segment) : Raised ⊎ (ℕ × ℕ) → List Exchange → Type 0 where
    fails :
        (reply : Reply) {err : Raised} {l : List Exchange}
        → Bad reply err
        → l ≡ asked x reply ∷ []
        → Opens x (inl err) l
    opens :
        (a : Segment) {l : List Exchange}
        → l ≡ asked x (tcp_reply a) ∷ []
        → Opens x (inr (numbers a)) l

  send_tcp_syn-Opens :
      (initial_seq initial_ack : ℕ) (ip : String) (dport sport : ℕ) (payload : String) (w : W)
      → Returns
          (λ out s. Opens (syn_segment initial_seq initial_ack ip dport sport payload) out (s.1))
          (send_tcp_syn (recorded net) initial_seq initial_ack ip dport sport payload (w, []))
  unfolding send_tcp_syn tcp_of syn_packet
  send_tcp_syn-Opens initial_seq initial_ack ip dport sport payload w =
      let syn : Segment = syn_segment initial_seq initial_ack ip dport sport payload in
      Returns-bind _ (printed-Returns (options_of syn) w []) λ _ s1 l1.
        Returns-bind _ (printed-Returns (raw_of syn) (s1.0) (s1.1)) λ _ s2 l2.
          Returns-bind _ (asked-Returns syn (s2.0) (s2.1)) λ reply s3 l3.
            let alone : s3.1 ≡ asked syn reply ∷ [] = l3 ∙ rw (l2, l1) refl in
            elim (Reply-cases reply) [
              | inl (a, e) ↦ rw e (returns (opens a (alone ∙ rw e refl)))
              | inr (err, bad, e) ↦ rw e (returns (fails reply bad alone))
            ]

  behind_syn :
      (ip : String) (dport sport : ℕ) (payload : String) (initial_seq initial_ack : ℕ)
      (opened_by : Raised ⊎ (ℕ × ℕ)) (s : W × List Exchange)
      → Opens (syn_segment initial_seq initial_ack ip dport sport payload) opened_by (s.1)
      → Returns
          (λ out s'. Ending ip dport sport initial_seq initial_ack payload out (s'.1))
          (either opened_by
            (λ err. pure (inl err))
            (λ ns. send_http_get_request (recorded net) ip dport sport ns payload)
            s)
  behind_syn ip dport sport payload initial_seq initial_ack _ s (fails reply bad l1) =
      returns (syn_unanswered reply bad l1)
  behind_syn ip dport sport payload initial_seq initial_ack _ s (opens a l1) =
      Returns-map (request-Requests ip dport sport payload a (s.0) (s.1))
        λ out s' asked_on. opened a (rw l1 at asked_on)

  -- When all calls come back, `sr1` with whatever reply or none: the client ends, and its record is
  -- one of four. At the first reply that is missing, or is no TCP segment, it raises a TypeError or an
  -- IndexError and sends nothing more: there is one segment in the record if that is the reply to the
  -- SYN, two if it is that to the request, with no FIN sent, and three if it is that to the FIN.
  -- Otherwise it ends with no exception, behind a SYN, the request, a FIN and an ACK, whose fields are
  -- those of `syn_segment` and `sequel`: each segment but the SYN has the flag ACK, carries the number
  -- that the reply before it acknowledges, and acknowledges one octet more than that one's sequence
  -- number.
  pub client_lem :
      (initial_seq initial_ack : ℕ) (ip : String) (dport sport : ℕ) (payload : String) (w : W)
      → (out : Raised ⊎ Unit {0}) × (w' : W) × (l : List Exchange) × (client
            (recorded net)
            initial_seq
            initial_ack
            ip
            dport
            sport
            payload
            (w, [])
          ≡ some (out, (w', l)))
        × Ending ip dport sport initial_seq initial_ack payload out l
  unfolding client
  client_lem initial_seq initial_ack ip dport sport payload w =
      let (out, s, e, ending) = Returns-result (
        Returns-bind _ (send_tcp_syn-Opens initial_seq initial_ack ip dport sport payload w)
          (behind_syn ip dport sport payload initial_seq initial_ack)) in
      (out, s.0, s.1, e, ending)
