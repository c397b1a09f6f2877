-- ===== src/Delivery/Promise.antt =====
-- Any sequence of calls of the sink, and what it promises to a peer: a first-in-first-out queue.
use govis.Prelude.{
  ℕ, zero, suc, ◌==◌, if◌then◌else◌, Option, none, some, List, [], ◌∷◌, ◌++◌, Outcome, ok, err,
  panic, Bool, true, false, ◌≡◌,
}
use govis.Delivery.{
  MessageDestination, all_parties, one_party, Outgoing, WireMsg, Channel, TcpDelivery, ErrorKind,
  poll_flush, poll_close, msg_type_of, start_send,
}

-- The calls, and the end of a write task, which drops the receiver of its channel.
pub data Op (M : Type 0) : Type 0 where
  send_item : Outgoing M → Op M
  flush : Op M
  close : Op M
  hang_up : ℕ → Op M

abbrev pub drop_receiver : ℕ → List Channel → List Channel
drop_receiver j [] = []
drop_receiver zero (tx ∷ peer_tx) = record { alive = false; queue = tx.queue } ∷ peer_tx
drop_receiver (suc j) (tx ∷ peer_tx) = tx ∷ drop_receiver j peer_tx

-- Whether a message is for the peer `j`.
abbrev pub is_for : ℕ → MessageDestination → Bool
is_for j (all_parties reliable) = true
is_for j (one_party k) = k == j

abbrev pub bytes_for : ℕ → MessageDestination → Option (List ℕ) → List (List ℕ)
bytes_for j destination none = []
bytes_for j destination (some bytes) = if is_for j destination then bytes ∷ [] else []

-- A call that fails leaves the state.
abbrev pub after : TcpDelivery → Outcome ErrorKind TcpDelivery → TcpDelivery
after d (ok d') = d'
after d (err e) = d
after d panic = d

module _ {M : Type 0} (serialize : WireMsg M → Option (List ℕ)) where
  abbrev pub step : Op M → TcpDelivery → TcpDelivery
  step (send_item item) d = after d (start_send serialize d item)
  step flush d = poll_flush d
  step close d = poll_close d
  step (hang_up j) d = record {
    my_index = d.my_index;
    peer_tx = drop_receiver j d.peer_tx;
    pending = d.pending;
    closed = d.closed;
  }

  abbrev pub run : List (Op M) → TcpDelivery → TcpDelivery
  run [] d = d
  run (op ∷ ops) d = run ops (step op d)

  -- The queue that the peer `j` is promised: the bytes of every message for it that is sent before the
  -- sink is closed and can be serialised.
  abbrev pub message_bytes : ℕ → ℕ → Outgoing M → List (List ℕ)
  message_bytes j my_index item = bytes_for j item.recipient (
      serialize
        (record { sender = my_index; msg_type = msg_type_of item.recipient; msg = item.msg }))

  abbrev pub promised : ℕ → ℕ → Bool → List (Op M) → List (List ℕ)
  promised j my_index closed [] = []
  promised j my_index closed (send_item item ∷ ops) =
      (if closed then [] else message_bytes j my_index item) ++ promised j my_index closed ops
  promised j my_index closed (flush ∷ ops) = promised j my_index closed ops
  promised j my_index closed (close ∷ ops) = promised j my_index true ops
  promised j my_index closed (hang_up k ∷ ops) = promised j my_index closed ops

  -- The write task of the peer `j` does not end.
  abbrev pub Stays : ℕ → List (Op M) → Type 0
  Stays j [] = Unit
  Stays j (send_item item ∷ ops) = Stays j ops
  Stays j (flush ∷ ops) = Stays j ops
  Stays j (close ∷ ops) = Stays j ops
  Stays j (hang_up k ∷ ops) = ((k == j) ≡ false) × Stays j ops
