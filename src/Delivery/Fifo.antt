-- ===== src/Delivery/Fifo.antt =====
-- The sink keeps the promise of a first-in-first-out queue for each peer.
use govis.Prelude.{
  ℕ, zero, suc, ◌==◌, if◌then◌else◌, Option, List, [], ◌∷◌, ◌++◌, ok, err, Bool, true, false,
  Bool-cases, Option-cases, inl, inr, ◌≡◌, refl, sym, ap, ap₂, ◌∙◌, arith,
}
use govis.Delivery.{
  MessageDestination, all_parties, one_party, Outgoing, WireMsg, Channel, TcpDelivery, broken_pipe,
  invalid_data, poll_flush, poll_close, recipients_of, wire, start_send, new,
}
use govis.Delivery.Promise.{
  Op, send_item, flush, close, hang_up, drop_receiver, is_for, bytes_for, after, step, run,
  message_bytes, promised, Stays,
}
use govis.Delivery.Channels.{
  queue_of, is_alive, copies, waiting_for, outgoing, send_pending-queue_of, send_pending-is_alive,
  copies_once,
}
use mathlib.Core.Path.{subst}
use mathlib.Core.List.{append-nil, append_assoc}

drop_receiver-queue_of :
    (j k : ℕ) (peer_tx : List Channel) → queue_of j (drop_receiver k peer_tx) ≡ queue_of j peer_tx
drop_receiver-queue_of j k [] = refl
drop_receiver-queue_of zero zero (tx ∷ peer_tx) = refl
drop_receiver-queue_of zero (suc k) (tx ∷ peer_tx) = refl
drop_receiver-queue_of (suc j) zero (tx ∷ peer_tx) = refl
drop_receiver-queue_of (suc j) (suc k) (tx ∷ peer_tx) = drop_receiver-queue_of j k peer_tx

drop_receiver-is_alive :
    (j k : ℕ) (peer_tx : List Channel)
    → (k == j) ≡ false
    → is_alive j (drop_receiver k peer_tx) ≡ is_alive j peer_tx
drop_receiver-is_alive j k [] h = refl
drop_receiver-is_alive zero zero (tx ∷ peer_tx) h = absurd (cc h)
drop_receiver-is_alive zero (suc k) (tx ∷ peer_tx) h = refl
drop_receiver-is_alive (suc j) zero (tx ∷ peer_tx) h = refl
drop_receiver-is_alive (suc j) (suc k) (tx ∷ peer_tx) h =
    drop_receiver-is_alive j k peer_tx (ground (arith, h))

waiting_for-append :
    (j : ℕ) (ps : List (List ℕ × List ℕ)) (bytes recipients : List ℕ)
    → waiting_for j (ps ++ ((bytes, recipients) ∷ []))
      ≡ waiting_for j ps ++ copies j recipients bytes
waiting_for-append j [] bytes recipients = append-nil (copies j recipients bytes)
waiting_for-append j ((b, r) ∷ ps) bytes recipients =
    ap (λ l. copies j r b ++ l) (waiting_for-append j ps bytes recipients)
    ∙ sym (append_assoc (copies j r b) (waiting_for j ps) (copies j recipients bytes))

copies-recipients_of :
    (j : ℕ) (destination : MessageDestination) (bytes : List ℕ) (peer_tx : List Channel)
    → is_alive j peer_tx ≡ true
    → copies j (recipients_of destination peer_tx) bytes
      ≡ (if is_for j destination then bytes ∷ [] else [])
unfolding recipients_of
copies-recipients_of j (all_parties reliable) bytes peer_tx h =
    copies_once j j 0 bytes peer_tx (omega arith) h
copies-recipients_of j (one_party k) bytes peer_tx h = refl

module _ {M : Type 0} (serialize : WireMsg M → Option (List ℕ)) where
  -- How one step relates to the promise.
  abbrev Keeps : ℕ → TcpDelivery → List (List ℕ) → Bool → TcpDelivery → Type 0
  Keeps j d sent closed d' =
      (outgoing j d' ≡ outgoing j d ++ sent)
      × (is_alive j d'.peer_tx ≡ true)
      × (d'.my_index ≡ d.my_index)
      × (d'.closed ≡ closed)

  Keeps-same : (j : ℕ) (d : TcpDelivery) → is_alive j d.peer_tx ≡ true → Keeps j d [] d.closed d
  Keeps-same j d h = (sym (append-nil (outgoing j d)), h, refl, refl)

  Keeps-of :
      (j : ℕ) (d s d' : TcpDelivery) (sent sent' : List (List ℕ)) (closed : Bool)
      → s ≡ d'
      → sent ≡ sent'
      → Keeps j d sent' closed d'
      → Keeps j d sent closed s
  Keeps-of j d s d' sent sent' closed e f k =
      subst (λ x. Keeps j d sent closed x) (sym e) (subst (λ x. Keeps j d x closed d') (sym f) k)

  -- The state after a message that is taken.
  abbrev taken : Outgoing M → List ℕ → TcpDelivery → TcpDelivery
  taken item bytes d = record {
    my_index = d.my_index;
    peer_tx = d.peer_tx;
    pending = d.pending ++ ((bytes, recipients_of item.recipient d.peer_tx) ∷ []);
    closed = d.closed;
  }

  send_item-Keeps :
      (j : ℕ) (item : Outgoing M) (d : TcpDelivery)
      → is_alive j d.peer_tx ≡ true
      → Keeps j d
          (if d.closed then [] else message_bytes serialize j d.my_index item)
          d.closed
          (step serialize (send_item item) d)
  unfolding start_send wire
  send_item-Keeps j item d h = elim (Bool-cases d.closed) [
    | inl c ↦
        let refused : start_send serialize d item ≡ err broken_pipe = rw c refl in
        Keeps-of j d _ d _ [] d.closed (ap (after d) refused) (rw c refl) (Keeps-same j d h)
    | inr c ↦ elim (Option-cases (serialize (wire serialize d item))) [
      | inl n ↦
          let refused : start_send serialize d item ≡ err invalid_data = rw (c, n) refl in
          Keeps-of j d _ d _ [] d.closed (ap (after d) refused)
            (rw c (ap (bytes_for j item.recipient) n)) (Keeps-same j d h)
      | inr (bytes, e) ↦
          let accepted : start_send serialize d item ≡ ok (taken item bytes d) = rw (c, e) refl in
          Keeps-of j d _ (taken item bytes d) _ (if is_for j item.recipient then bytes ∷ [] else [])
            d.closed (ap (after d) accepted) (rw c (ap (bytes_for j item.recipient) e))
            (
              ap (λ l. queue_of j d.peer_tx ++ l)
                    (waiting_for-append j d.pending bytes (recipients_of item.recipient d.peer_tx))
                  ∙ sym (append_assoc (queue_of j d.peer_tx) (waiting_for j d.pending) _)
                  ∙ ap (λ l. outgoing j d ++ l)
                      (copies-recipients_of j item.recipient bytes d.peer_tx h),
              h,
              refl,
              refl,
            )
    ]
  ]

  -- Flushing moves what waits into the channels.
  poll_flush-Keeps :
      (j : ℕ) (d : TcpDelivery) → is_alive j d.peer_tx ≡ true → Keeps j d [] d.closed (poll_flush d)
  unfolding poll_flush
  poll_flush-Keeps j d h = (
    append-nil _ ∙ send_pending-queue_of j d.pending d.peer_tx h ∙ sym (append-nil (outgoing j d)),
    send_pending-is_alive j d.pending d.peer_tx ∙ h,
    refl,
    refl,
  )

  Keeps-then :
      (j : ℕ) (ops : List (Op M)) (d s : TcpDelivery) (sent : List (List ℕ)) (closed : Bool)
      → Keeps j d sent closed s
      → (outgoing j (run serialize ops s)
          ≡ outgoing j s ++ promised serialize j s.my_index s.closed ops)
        × (is_alive j (run serialize ops s).peer_tx ≡ true)
      → (outgoing j (run serialize ops s)
          ≡ outgoing j d ++ (sent ++ promised serialize j d.my_index closed ops))
        × (is_alive j (run serialize ops s).peer_tx ≡ true)
  Keeps-then j ops d s sent closed (out, live, index, state) (rest, live') = (
    rest
        ∙ ap₂ (λ l r. l ++ r) out (ap₂ (λ x b. promised serialize j x b ops) index state)
        ∙ append_assoc (outgoing j d) sent (promised serialize j d.my_index closed ops),
    live',
  )

  -- For a peer whose write task does not end: whatever calls are made, what its channel has together
  -- with what waits for it is what there was, and then the promised messages, in order and once each.
  run-outgoing :
      (j : ℕ) (ops : List (Op M)) (d : TcpDelivery)
      → is_alive j d.peer_tx ≡ true
      → Stays serialize j ops
      → (outgoing j (run serialize ops d)
          ≡ outgoing j d ++ promised serialize j d.my_index d.closed ops)
        × (is_alive j (run serialize ops d).peer_tx ≡ true)
  unfolding poll_close
  run-outgoing j [] d h stays = (sym (append-nil (outgoing j d)), h)
  run-outgoing j (send_item item ∷ ops) d h stays =
      let k = send_item-Keeps j item d h in
      Keeps-then j ops d (step serialize (send_item item) d) _ d.closed k
        (run-outgoing j ops (step serialize (send_item item) d) k.1 stays)
  run-outgoing j (flush ∷ ops) d h stays =
      let k = poll_flush-Keeps j d h in
      Keeps-then j ops d (poll_flush d) [] d.closed k (run-outgoing j ops (poll_flush d) k.1 stays)
  run-outgoing j (close ∷ ops) d h stays =
      let shut : TcpDelivery = record {
        my_index = d.my_index;
        peer_tx = d.peer_tx;
        pending = d.pending;
        closed = true;
      } in
      let k = poll_flush-Keeps j shut h in
      Keeps-then j ops d (poll_flush shut) [] true k
        (run-outgoing j ops (poll_flush shut) k.1 stays)
  run-outgoing j (hang_up i ∷ ops) d h (ne, stays) =
      Keeps-then j ops d (step serialize (hang_up i) d) [] d.closed
        (
          ap (λ q. q ++ waiting_for j d.pending) (drop_receiver-queue_of j i d.peer_tx)
              ∙ sym (append-nil (outgoing j d)),
          drop_receiver-is_alive j i d.peer_tx ne ∙ h,
          refl,
          refl,
        )
        (run-outgoing j ops (step serialize (hang_up i) d)
          (drop_receiver-is_alive j i d.peer_tx ne ∙ h) stays)

  -- The sink is a first-in-first-out queue for each peer: after any calls on a new sink and a flush, the
  -- channel of a peer whose write task does not end has what it had, and then, in order and once each,
  -- every message for the peer that was sent before a close and could be serialised; nothing waits.
  pub run-queue_of :
      (j my_index : ℕ) (ops : List (Op M)) (peer_tx : List Channel)
      → is_alive j peer_tx ≡ true
      → Stays serialize j ops
      → (queue_of j (poll_flush (run serialize ops (new my_index peer_tx))).peer_tx
          ≡ queue_of j peer_tx ++ promised serialize j my_index false ops)
        × ((poll_flush (run serialize ops (new my_index peer_tx))).pending ≡ [])
  unfolding poll_flush new
  run-queue_of j my_index ops peer_tx h stays =
      let (out, live) = run-outgoing j ops (new my_index peer_tx) h stays in
      (
        send_pending-queue_of j _ _ live
            ∙ out
            ∙ ap (λ q. q ++ promised serialize j my_index false ops)
                (append-nil (queue_of j peer_tx)),
        refl,
      )

  stays_closed :
      (ops : List (Op M)) (d : TcpDelivery) → d.closed ≡ true → (run serialize ops d).closed ≡ true
  unfolding start_send poll_flush poll_close
  stays_closed [] d h = h
  stays_closed (send_item item ∷ ops) d h =
      let refused : start_send serialize d item ≡ err broken_pipe = rw h refl in
      stays_closed ops (step serialize (send_item item) d)
        (ap (λ o. (after d o).closed) refused ∙ h)
  stays_closed (flush ∷ ops) d h = stays_closed ops (poll_flush d) h
  stays_closed (close ∷ ops) d h = stays_closed ops (poll_close d) refl
  stays_closed (hang_up k ∷ ops) d h = stays_closed ops (step serialize (hang_up k) d) h

  -- Once it is closed, and whatever calls follow, the sink refuses every message with a broken pipe.
  start_send-broken_pipe :
      (ops : List (Op M)) (d : TcpDelivery) (item : Outgoing M)
      → start_send serialize (run serialize ops (poll_close d)) item ≡ err broken_pipe
  unfolding start_send poll_close poll_flush
  start_send-broken_pipe ops d item = rw (stays_closed ops (poll_close d) refl) refl
