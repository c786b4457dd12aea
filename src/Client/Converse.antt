-- ===== src/Client/Converse.antt =====
-- The client against a peer that answers.
use Prim.Native.String.{String}
use defrizer.Common.{ℕ, ◌+◌, ◌≡◌, refl, ap, ◌∙◌, inr, List, [], ◌∷◌, ◌++◌, true, false, some}
use defrizer.Client.{
  Segment, tcp_reply, Output, options_of, raw_of, message, verdict, Network, tcp_of, http_get,
  syn_packet, ack_packet, numbers, send_tcp_syn, close_connection, send_http_get_request, client,
}
use defrizer.Client.Peer.{
  acknowledged, Answers, Exchange, asked, told, recorded, syn_segment, sequel, request_text,
}
use defrizer.Driver.Returns.{
  Returns, returns, Returns-bind, Returns-map, Returns-result, noting-Returns,
}

module _ {W : Type 0} (net : Network W) (answers : Answers net) where
  -- A call of `sr1` with its entry in the record.
  asked-Returns :
      (x : Segment) (w : W) (l : List Exchange)
      → Returns
          (λ reply s.
            (r : Segment) × (reply ≡ tcp_reply r)
            × (r.ack_number ≡ acknowledged x)
            × (s.1 ≡ l ++ asked x (tcp_reply r) ∷ []))
          ((recorded net).sr1 x (w, l))
  unfolding recorded
  asked-Returns x w l =
      noting-Returns (net.sr1 x) (λ reply l'. l' ++ asked x reply ∷ []) w l (answers.answered x w)
        λ reply w' heard. let (r, e, acked) = heard in (r, e, acked, rw e)

  printed-Returns :
      (o : Output) (w : W) (l : List Exchange)
      → Returns (λ _ s. s.1 ≡ l) ((recorded net).print o (w, l))
  unfolding recorded
  printed-Returns o w l =
      noting-Returns (net.print o) (λ _ l'. l') w l (answers.printed o w) λ _ w' _. refl

  told-Returns :
      (x : Segment) (w : W) (l : List Exchange)
      → Returns (λ _ s. s.1 ≡ l ++ told x ∷ []) ((recorded net).send x (w, l))
  unfolding recorded
  told-Returns x w l =
      noting-Returns (net.send x) (λ _ l'. l' ++ told x ∷ []) w l (answers.sent x w) λ _ w' _. refl

  -- What is sent and answered behind the reply `r`.
  abbrev Closing : String → ℕ → ℕ → Segment → List Exchange → Segment → List Exchange → Type 0
  Closing ip dport sport r l c l' =
      let fin = sequel true ip dport sport r "" in
      (c.ack_number ≡ acknowledged fin)
      × (l' ≡ (l ++ asked fin (tcp_reply c) ∷ []) ++ told (sequel false ip dport sport c "") ∷ [])

  close_connection-Returns :
      (ip : String) (dport sport : ℕ) (r : Segment) (w : W) (l : List Exchange)
      → Returns
          (λ out s. (c : Segment) × (out ≡ inr tt) × Closing ip dport sport r l c (s.1))
          (close_connection (recorded net) ip dport sport (numbers r) (w, l))
  unfolding close_connection tcp_of ack_packet
  close_connection-Returns ip dport sport r w l =
      Returns-bind _ (asked-Returns (sequel true ip dport sport r "") w l) λ reply s1 heard.
        let (c, e, acked, l1) = heard in
        rw (e) (
          Returns-bind _ (told-Returns (sequel false ip dport sport c "") (s1.0) (s1.1))
            λ _ s2 l2. returns (c, refl, (acked, rw (l2, l1) refl)))

  -- What is sent and answered behind the reply `r` to the SYN.
  abbrev Requesting :
      String → ℕ → ℕ → String → Segment → List Exchange → Segment → Segment → List Exchange → Type 0
  Requesting ip dport sport payload r l b c l' =
      let get = sequel false ip dport sport r (request_text ip dport payload) in
      (b.ack_number ≡ acknowledged get)
      × Closing ip dport sport b (l ++ asked get (tcp_reply b) ∷ []) c l'

  request-Returns :
      (ip : String) (dport sport : ℕ) (payload : String) (r : Segment) (w : W) (l : List Exchange)
      → Returns
          (λ out s.
            (b c : Segment) × (out ≡ inr tt) × Requesting ip dport sport payload r l b c (s.1))
          (send_http_get_request (recorded net) ip dport sport (numbers r) payload (w, l))
  unfolding send_http_get_request tcp_of ack_packet http_get
  request-Returns ip dport sport payload r w l =
      Returns-bind _
        (asked-Returns (sequel false ip dport sport r (request_text ip dport payload)) w l)
        λ reply s1 heard.
          let (b, e, acked, l1) = heard in
          rw (e) (
            Returns-bind _ (printed-Returns (message (verdict (tcp_reply b))) (s1.0) (s1.1))
              λ _ s2 l2.
                Returns-map (close_connection-Returns ip dport sport b (s2.0) (s2.1))
                  λ out s3 closed.
                    let (c, done, closing) = closed in
                    (b, c, done, (acked, (closing.0, closing.1 ∙ rw (l2, l1) refl))))

  send_tcp_syn-Returns :
      (initial_seq initial_ack : ℕ) (ip : String) (dport sport : ℕ) (payload : String) (w : W)
      → Returns
          (λ out s.
            (a : Segment) × (out ≡ inr (numbers a))
            × (a.ack_number
                ≡ acknowledged (syn_segment initial_seq initial_ack ip dport sport payload))
            × (s.1
                ≡ asked (syn_segment initial_seq initial_ack ip dport sport payload) (tcp_reply a)
                  ∷ []))
          (send_tcp_syn (recorded net) initial_seq initial_ack ip dport sport payload (w, []))
  unfolding send_tcp_syn tcp_of syn_packet
  send_tcp_syn-Returns initial_seq initial_ack ip dport sport payload w =
      let syn : Segment = syn_segment initial_seq initial_ack ip dport sport payload in
      Returns-bind _ (printed-Returns (options_of syn) w []) λ _ s1 l1.
        Returns-bind _ (printed-Returns (raw_of syn) (s1.0) (s1.1)) λ _ s2 l2.
          Returns-bind _ (asked-Returns syn (s2.0) (s2.1)) λ reply s3 heard.
            let (a, e, acked, l3) = heard in rw (e) (returns (a, refl, acked, rw (l3, l2, l1) refl))

  client-Returns :
      (initial_seq initial_ack : ℕ) (ip : String) (dport sport : ℕ) (payload : String) (w : W)
      → Returns
          (λ out s.
            (a : Segment) × (b : Segment) × (c : Segment) × (out ≡ inr tt)
            × (a.ack_number
                ≡ acknowledged (syn_segment initial_seq initial_ack ip dport sport payload))
            × Requesting ip dport sport payload a
                (asked (syn_segment initial_seq initial_ack ip dport sport payload) (tcp_reply a)
                  ∷ [])
                b
                c
                (s.1))
          (client (recorded net) initial_seq initial_ack ip dport sport payload (w, []))
  unfolding client
  client-Returns initial_seq initial_ack ip dport sport payload w =
      Returns-bind _ (send_tcp_syn-Returns initial_seq initial_ack ip dport sport payload w)
        λ opened s1 begun.
          let (a, e, acked, l1) = begun in
          rw (e) (
            Returns-map (request-Returns ip dport sport payload a (s1.0) (s1.1)) λ out s2 ended.
              let (b, c, done, (acked', (closed, l2))) = ended in
              (a, b, c, done, acked, (acked', (closed, l2 ∙ rw (l1) refl))))

  -- All calls come back, and the peer answers each `sr1` with a segment that acknowledges the one that
  -- was sent as a whole. Then the client ends with no exception, and has sent four segments, in this
  -- order and no other: a SYN with the payload as option 253, a segment with the flag ACK and the text
  -- of the request, one with ACK and FIN, and one with ACK alone, all between the given ports to the
  -- given address. The sequence number of each continues the one before without a gap, and each but
  -- the SYN acknowledges one octet more than the sequence number of the last reply.
  pub client_converses :
      (initial_seq initial_ack : ℕ) (ip : String) (dport sport : ℕ) (payload : String) (w : W)
      → (syn : Segment) × (get : Segment) × (fin : Segment) × (last : Segment) × (a : Segment)
        × (b : Segment) × (c : Segment) × (w' : W) × (client
              (recorded net)
              initial_seq
              initial_ack
              ip
              dport
              sport
              payload
              (w, [])
            ≡ some (
              inr tt,
              (
                w',
                asked syn (tcp_reply a)
                    ∷ asked get (tcp_reply b)
                    ∷ asked fin (tcp_reply c)
                    ∷ told last
                    ∷ [],
              ),
            ))
        × (get.seq ≡ acknowledged syn)
        × (fin.seq ≡ acknowledged get)
        × (last.seq ≡ acknowledged fin)
        × (get.ack_number ≡ a.seq + 1)
        × (fin.ack_number ≡ b.seq + 1)
        × (last.ack_number ≡ c.seq + 1)
        × (syn ≡ syn_segment initial_seq initial_ack ip dport sport payload)
        × (get ≡ sequel false ip dport sport a (request_text ip dport payload))
        × (fin ≡ sequel true ip dport sport b "")
        × (last ≡ sequel false ip dport sport c "")
  unfolding client
  client_converses initial_seq initial_ack ip dport sport payload w =
      let syn : Segment = syn_segment initial_seq initial_ack ip dport sport payload in
      let (out, s, run, (a, b, c, done, acked, (acked', (acked'', l)))) =
        Returns-result (client-Returns initial_seq initial_ack ip dport sport payload w) in
      let get : Segment = sequel false ip dport sport a (request_text ip dport payload) in
      let fin : Segment = sequel true ip dport sport b "" in
      let last : Segment = sequel false ip dport sport c "" in
      let ran = run ∙ (ap (λ z. some (z, s)) done ∙ ap (λ z. some (inr tt, (s.0, z))) l) in
      (
        syn, get, fin, last, a, b, c, s.0, ran, acked, acked', acked'', refl, refl, refl, refl,
        refl, refl, refl,
      )
