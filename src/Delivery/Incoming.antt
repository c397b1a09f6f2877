-- ===== src/Delivery/Incoming.antt =====
-- src/tcp_delivery.rs: the read task of one connection, on the frames that it receives in order, and what
-- it makes of the messages that the peer has sent.
use govis.Prelude.{
  ℕ, ◌+◌, ◌%◌, ◌^◌, if◌then◌else◌, Option, none, some, List, [], ◌∷◌, ◌++◌, Outcome, ok, err, Bool,
  true, false, Bool-cases, Option-cases, inl, inr, ◌≡◌, refl, ap, ◌∙◌,
}
use govis.Delivery.{
  Outgoing, WireMsg, WireMsgType, broadcast, p2p, Channel, ErrorKind, invalid_data, msg_type_of,
  poll_flush, new,
}
use govis.Delivery.Channels.{queue_of, is_alive}
use govis.Delivery.Promise.{
  Op, send_item, flush, close, hang_up, is_for, run, promised, message_bytes, Stays,
}
use govis.Delivery.Fifo.{run-queue_of}

-- `MessageType` and `Incoming` of the `round_based` library.
pub data MessageType : Type 0 where
  to_all : Bool → MessageType
  to_one : MessageType

pub record Incoming (M : Type 0) : Type 0 where
  pub id : ℕ
  pub sender : ℕ
  pub msg_type : MessageType
  pub msg : M

unfoldable pub message_type : WireMsgType → MessageType
message_type (broadcast reliable) = to_all reliable
message_type p2p = to_one

unfoldable pub incoming_of : {M : Type 0} → ℕ → WireMsg M → Incoming M
incoming_of next_id wire = record {
  id = next_id;
  sender = wire.sender;
  msg_type = message_type wire.msg_type;
  msg = wire.msg;
}

-- Messages of a peer, numbered from `next_id` on as a u64 counts.
abbrev pub numbered : {M : Type 0} → ℕ → List (WireMsg M) → List (Outcome ErrorKind (Incoming M))
numbered next_id [] = []
numbered next_id (w ∷ ws) = ok (incoming_of next_id w) ∷ numbered ((next_id + 1) % 2 ^ 64) ws

-- The deserialisation library is the argument `deserialize`.
module _ {M : Type 0} (deserialize : List ℕ → Option (WireMsg M)) where
  unfoldable pub read_task : ℕ → List (List ℕ) → List (Outcome ErrorKind (Incoming M))
  read_task next_id [] = []
  read_task next_id (buf ∷ frames) =
      let counted = read_task ((next_id + 1) % 2 ^ 64) frames in
      let skipped = read_task next_id frames in
      elim (deserialize buf) [
        | some wire ↦ ok (incoming_of next_id wire) ∷ counted
        | none ↦ err invalid_data ∷ skipped
      ]

  module _ (serialize : WireMsg M → Option (List ℕ)) where
    abbrev pub wire_of : ℕ → Outgoing M → WireMsg M
    wire_of my_index item = record {
      sender = my_index;
      msg_type = msg_type_of item.recipient;
      msg = item.msg;
    }

    abbrev pub wires_for : Bool → WireMsg M → Option (List ℕ) → List (WireMsg M)
    wires_for wanted w none = []
    wires_for wanted w (some bytes) = if wanted then w ∷ [] else []

    -- The messages for the peer `j` that are sent before a close and can be serialised.
    abbrev pub messages_of : ℕ → ℕ → Outgoing M → List (WireMsg M)
    messages_of j my_index item =
        wires_for (is_for j item.recipient) (wire_of my_index item)
          (serialize (wire_of my_index item))

    abbrev pub messages_for : ℕ → ℕ → Bool → List (Op M) → List (WireMsg M)
    messages_for j my_index closed [] = []
    messages_for j my_index closed (send_item item ∷ ops) =
        (if closed then [] else messages_of j my_index item) ++ messages_for j my_index closed ops
    messages_for j my_index closed (flush ∷ ops) = messages_for j my_index closed ops
    messages_for j my_index closed (close ∷ ops) = messages_for j my_index true ops
    messages_for j my_index closed (hang_up k ∷ ops) = messages_for j my_index closed ops

    module _
        (decodes : (w : WireMsg M) (bytes : List ℕ)
          → serialize w ≡ some bytes
          → deserialize bytes ≡ some w) where
      -- One message more in front, on both sides.
      read_task-send :
          (j my_index next_id : ℕ) (item : Outgoing M) (rest : List (List ℕ))
          (ws : List (WireMsg M))
          → ((k : ℕ) → read_task k rest ≡ numbered k ws)
          → read_task next_id (message_bytes serialize j my_index item ++ rest)
            ≡ numbered next_id (messages_of j my_index item ++ ws)
      unfolding read_task
      read_task-send j my_index next_id item rest ws h =
          elim (Option-cases (serialize (wire_of my_index item))) [
            | inl e ↦ rw e (h next_id)
            | inr (bytes, e) ↦ elim (Bool-cases (is_for j item.recipient)) [
              | inl f ↦
                  rw (e, f, decodes _ _ e)
                    (ap (λ l. ok (incoming_of next_id (wire_of my_index item)) ∷ l) (h _))
              | inr f ↦ rw (e, f) (h next_id)
            ]
          ]

      read_task-promised :
          (j my_index next_id : ℕ) (closed : Bool) (ops : List (Op M))
          → read_task next_id (promised serialize j my_index closed ops)
            ≡ numbered next_id (messages_for j my_index closed ops)
      unfolding read_task
      read_task-promised j my_index next_id closed [] = refl
      read_task-promised j my_index next_id true (send_item item ∷ ops) =
          read_task-promised j my_index next_id true ops
      read_task-promised j my_index next_id false (send_item item ∷ ops) =
          read_task-send j my_index next_id item _ _
            (λ k. read_task-promised j my_index k false ops)
      read_task-promised j my_index next_id closed (flush ∷ ops) =
          read_task-promised j my_index next_id closed ops
      read_task-promised j my_index next_id closed (close ∷ ops) =
          read_task-promised j my_index next_id true ops
      read_task-promised j my_index next_id closed (hang_up i ∷ ops) =
          read_task-promised j my_index next_id closed ops

      -- For a serialisation that reads back what it writes: when a peer whose write task does not end
      -- starts with an empty channel, and any calls of the sink are made and then a flush, the read task
      -- of the peer gets from the frames of that channel, in order and once each, every message for it
      -- that was sent before a close and could be serialised, numbered from 0, with its sender and its
      -- type, and no error.
      pub read_task-run :
          (j my_index : ℕ) (ops : List (Op M)) (peer_tx : List Channel)
          → is_alive j peer_tx ≡ true
          → queue_of j peer_tx ≡ []
          → Stays serialize j ops
          → read_task 0 (queue_of j (poll_flush (run serialize ops (new my_index peer_tx))).peer_tx)
            ≡ numbered 0 (messages_for j my_index false ops)
      read_task-run j my_index ops peer_tx alive empty stays =
          ap (read_task 0) (
            (run-queue_of serialize j my_index ops peer_tx alive stays).0
            ∙ ap (λ l. l ++ promised serialize j my_index false ops) empty)
          ∙ read_task-promised j my_index 0 false ops
