-- ===== src/Delivery.antt =====
-- src/tcp_delivery.rs: the sink that a protocol sends its messages into. The channels to the write tasks
-- are what they have received so far.
pub mod Channels
pub mod Promise
pub mod Fifo
pub mod Incoming
pub mod Connect
use govis.Prelude.{
  ℕ, zero, suc, ◌+◌, ◌==◌, if◌then◌else◌, Option, none, some, List, [], ◌∷◌, ◌++◌, Outcome, ok, err,
  panic, expect, ok_or, Bool, true, false,
}
use govis.Prelude.{◌>>=◌ as ◌and_then◌}

-- `MessageDestination` and `Outgoing` of the `round_based` library.
pub data MessageDestination : Type 0 where
  all_parties : Bool → MessageDestination
  one_party : ℕ → MessageDestination

pub record Outgoing (M : Type 0) : Type 0 where
  pub recipient : MessageDestination
  pub msg : M

pub data WireMsgType : Type 0 where
  broadcast : Bool → WireMsgType
  p2p : WireMsgType

pub record WireMsg (M : Type 0) : Type 0 where
  pub sender : ℕ
  pub msg_type : WireMsgType
  pub msg : M

-- An unbounded channel: whether its receiver is alive, and what was sent into it.
pub record Channel : Type 0 where
  pub alive : Bool
  pub queue : List (List ℕ)

pub record TcpDelivery : Type 0 where
  pub my_index : ℕ
  pub peer_tx : List Channel
  pub pending : List (List ℕ × List ℕ)
  pub closed : Bool

pub data ErrorKind : Type 0 where
  broken_pipe invalid_data : ErrorKind

unfoldable pub new : ℕ → List Channel → TcpDelivery
new my_index peer_tx = record {
  my_index = my_index;
  peer_tx = peer_tx;
  pending = [];
  closed = false;
}

-- `let _ = tx.send(bytes)`: a channel whose receiver is gone takes nothing.
abbrev pub push : List ℕ → Channel → Channel
push bytes tx =
    if tx.alive then record { alive = tx.alive; queue = tx.queue ++ (bytes ∷ []) } else tx

-- `if let Some(tx) = self.peer_tx.get(j)`.
unfoldable pub send_to : ℕ → List ℕ → List Channel → List Channel
send_to j bytes [] = []
send_to zero bytes (tx ∷ peer_tx) = push bytes tx ∷ peer_tx
send_to (suc j) bytes (tx ∷ peer_tx) = tx ∷ send_to j bytes peer_tx

unfoldable pub send_to_all : List ℕ → List ℕ → List Channel → List Channel
send_to_all [] bytes peer_tx = peer_tx
send_to_all (j ∷ recipients) bytes peer_tx = send_to_all recipients bytes (send_to j bytes peer_tx)

-- The loop over the messages that wait.
unfoldable pub send_pending : List (List ℕ × List ℕ) → List Channel → List Channel
send_pending [] peer_tx = peer_tx
send_pending ((bytes, recipients) ∷ pending) peer_tx =
    send_pending pending (send_to_all recipients bytes peer_tx)

unfoldable pub poll_flush : TcpDelivery → TcpDelivery
poll_flush d = record {
  my_index = d.my_index;
  peer_tx = send_pending d.pending d.peer_tx;
  pending = [];
  closed = d.closed;
}

unfoldable pub poll_close : TcpDelivery → TcpDelivery
poll_close d =
    poll_flush
      (record { my_index = d.my_index; peer_tx = d.peer_tx; pending = d.pending; closed = true })

-- The indices of the channels that are open, from `j` on.
unfoldable pub open_peers : ℕ → List Channel → List ℕ
open_peers j [] = []
open_peers j (tx ∷ peer_tx) =
    if tx.alive then j ∷ open_peers (suc j) peer_tx else open_peers (suc j) peer_tx

unfoldable pub recipients_of : MessageDestination → List Channel → List ℕ
recipients_of (all_parties reliable) peer_tx = open_peers 0 peer_tx
recipients_of (one_party j) peer_tx = j ∷ []

unfoldable pub msg_type_of : MessageDestination → WireMsgType
msg_type_of (all_parties reliable) = broadcast reliable
msg_type_of (one_party j) = p2p

-- The serialisation library is the argument `serialize`.
module _ {M : Type 0} (serialize : WireMsg M → Option (List ℕ)) where
  unfoldable pub wire : TcpDelivery → Outgoing M → WireMsg M
  wire d item = record {
    sender = d.my_index;
    msg_type = msg_type_of item.recipient;
    msg = item.msg;
  }

  unfoldable pub start_send : TcpDelivery → Outgoing M → Outcome ErrorKind TcpDelivery
  start_send d item =
      let accepted = ok_or invalid_data (serialize (wire d item)) and_then λ bytes. ok (record {
        my_index = d.my_index;
        peer_tx = d.peer_tx;
        pending = d.pending ++ ((bytes, recipients_of item.recipient d.peer_tx) ∷ []);
        closed = d.closed;
      }) in
      if d.closed then err broken_pipe else accepted
