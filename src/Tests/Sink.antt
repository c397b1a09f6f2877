-- ===== src/Tests/Sink.antt =====
-- A sink with three peers, of which the first is the party's own slot, closed.
use govis.Prelude.{
  ◌≡◌, refl, sym, ap, ◌∙◌, ℕ, zero, suc, some, none, ok, some_inj, List, [], ◌∷◌, Option, true,
  false,
}
use govis.Delivery.{
  WireMsgType, broadcast, p2p, msg_type_of, all_parties, one_party, WireMsg, Channel, new,
  poll_flush,
}
use govis.Delivery.Promise.{Op, send_item, flush, close, hang_up, run}
use govis.Delivery.Incoming.{read_task, read_task-run, incoming_of, message_type, to_all, to_one}
use govis.Delivery.Channels.{queue_of}

abbrev code_of_type : WireMsgType → ℕ
code_of_type (broadcast true) = 0
code_of_type (broadcast false) = 1
code_of_type p2p = 2

abbrev type_of_code : ℕ → WireMsgType
type_of_code zero = broadcast true
type_of_code (suc zero) = broadcast false
type_of_code (suc (suc code)) = p2p

type_of_code-code_of_type : (t : WireMsgType) → type_of_code (code_of_type t) ≡ t
type_of_code-code_of_type (broadcast true) = refl
type_of_code-code_of_type (broadcast false) = refl
type_of_code-code_of_type p2p = refl

abbrev encode : WireMsg ℕ → Option (List ℕ)
encode w = some (w.sender ∷ code_of_type w.msg_type ∷ w.msg ∷ [])

abbrev channels : List Channel
channels =
    record { alive = false; queue = [] }
    ∷ record { alive = true; queue = [] }
    ∷ record { alive = true; queue = [] }
    ∷ []

-- A broadcast, a message to each peer, the end of a write task, and a message after the close.
abbrev calls : List (Op ℕ)
calls =
    send_item (record { recipient = all_parties true; msg = 5 })
    ∷ send_item (record { recipient = one_party 2; msg = 6 })
    ∷ flush
    ∷ hang_up 2
    ∷ send_item (record { recipient = one_party 1; msg = 7 })
    ∷ close
    ∷ send_item (record { recipient = one_party 1; msg = 8 })
    ∷ []

-- The frame of a message, read back.
abbrev decode : List ℕ → Option (WireMsg ℕ)
decode (sender ∷ kind ∷ msg ∷ []) =
    some (record { sender = sender; msg_type = type_of_code kind; msg = msg })
decode frame = none

decode-encode : (w : WireMsg ℕ) (bytes : List ℕ) → encode w ≡ some bytes → decode bytes ≡ some w
decode-encode w bytes h =
    ap decode (sym (some_inj h))
    ∙ ap (λ t. some (record { sender = w.sender; msg_type = t; msg = w.msg }))
        (type_of_code-code_of_type w.msg_type)

read_task-run_example :
    read_task decode 0 (queue_of 1 (poll_flush (run encode calls (new 0 channels))).peer_tx)
    ≡ ok (record { id = 0; sender = 0; msg_type = to_all true; msg = 5 })
      ∷ ok (record { id = 1; sender = 0; msg_type = to_one; msg = 7 })
      ∷ []
unfolding incoming_of message_type msg_type_of
read_task-run_example =
    read_task-run decode encode decode-encode 1 0 calls channels refl refl (refl, tt)
