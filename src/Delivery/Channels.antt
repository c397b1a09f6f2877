-- ===== src/Delivery/Channels.antt =====
-- What one flush does to the channel of a peer, and who receives a broadcast.
use govis.Prelude.{
  ℕ, zero, suc, ◌+◌, ◌<◌, ◌==◌, if◌then◌else◌, List, [], ◌∷◌, ◌++◌, Bool, true, false, Bool-cases,
  inl, inr, ◌≡◌, refl, sym, ap, ◌∙◌, arith,
}
use govis.Delivery.{Channel, TcpDelivery, send_to, send_to_all, send_pending, open_peers}
use mathlib.Core.List.{append-nil, append_assoc}

-- The channel to the peer `j`: what was sent into it, and whether its receiver is alive.
abbrev pub queue_of : ℕ → List Channel → List (List ℕ)
queue_of j [] = []
queue_of zero (tx ∷ peer_tx) = tx.queue
queue_of (suc j) (tx ∷ peer_tx) = queue_of j peer_tx

abbrev pub is_alive : ℕ → List Channel → Bool
is_alive j [] = false
is_alive zero (tx ∷ peer_tx) = tx.alive
is_alive (suc j) (tx ∷ peer_tx) = is_alive j peer_tx

-- The message once for each time that the peer `j` is a recipient.
abbrev pub copies : ℕ → List ℕ → List ℕ → List (List ℕ)
copies j [] bytes = []
copies j (r ∷ recipients) bytes =
    if r == j then bytes ∷ copies j recipients bytes else copies j recipients bytes

-- What waits for the peer `j`.
abbrev pub waiting_for : ℕ → List (List ℕ × List ℕ) → List (List ℕ)
waiting_for j [] = []
waiting_for j ((bytes, recipients) ∷ pending) = copies j recipients bytes ++ waiting_for j pending

-- Everything accepted for the peer `j`: in its channel already, or waiting.
abbrev pub outgoing : ℕ → TcpDelivery → List (List ℕ)
outgoing j d = queue_of j d.peer_tx ++ waiting_for j d.pending

send_to-is_alive :
    (j r : ℕ) (bytes : List ℕ) (peer_tx : List Channel)
    → is_alive j (send_to r bytes peer_tx) ≡ is_alive j peer_tx
unfolding send_to
send_to-is_alive j r bytes [] = refl
send_to-is_alive zero zero bytes (tx ∷ peer_tx) = elim (Bool-cases tx.alive) [
  | inl e ↦ rw e refl
  | inr e ↦ rw e refl
]
send_to-is_alive zero (suc r) bytes (tx ∷ peer_tx) = refl
send_to-is_alive (suc j) zero bytes (tx ∷ peer_tx) = refl
send_to-is_alive (suc j) (suc r) bytes (tx ∷ peer_tx) = send_to-is_alive j r bytes peer_tx

send_to-queue_of :
    (j r : ℕ) (bytes : List ℕ) (peer_tx : List Channel)
    → is_alive j peer_tx ≡ true
    → queue_of j (send_to r bytes peer_tx) ≡ queue_of j peer_tx ++ copies j (r ∷ []) bytes
unfolding send_to
send_to-queue_of j r bytes [] h = absurd (cc h)
send_to-queue_of zero zero bytes (tx ∷ peer_tx) h = rw h refl
send_to-queue_of zero (suc r) bytes (tx ∷ peer_tx) h =
    let ne : (suc r == 0) ≡ false = ground arith in rw ne (sym (append-nil tx.queue))
send_to-queue_of (suc j) zero bytes (tx ∷ peer_tx) h =
    let ne : (0 == suc j) ≡ false = ground arith in rw ne (sym (append-nil (queue_of j peer_tx)))
send_to-queue_of (suc j) (suc r) bytes (tx ∷ peer_tx) h =
    let same : (suc r == suc j) ≡ (r == j) = ground arith in
    rw same (send_to-queue_of j r bytes peer_tx h)

send_to_all-is_alive :
    (j : ℕ) (recipients : List ℕ) (bytes : List ℕ) (peer_tx : List Channel)
    → is_alive j (send_to_all recipients bytes peer_tx) ≡ is_alive j peer_tx
unfolding send_to_all
send_to_all-is_alive j [] bytes peer_tx = refl
send_to_all-is_alive j (r ∷ recipients) bytes peer_tx =
    send_to_all-is_alive j recipients bytes (send_to r bytes peer_tx)
    ∙ send_to-is_alive j r bytes peer_tx

copies_cons :
    (j r : ℕ) (recipients : List ℕ) (bytes : List ℕ)
    → copies j (r ∷ []) bytes ++ copies j recipients bytes ≡ copies j (r ∷ recipients) bytes
copies_cons j r recipients bytes = elim (Bool-cases (r == j)) [
  | inl e ↦ rw e refl
  | inr e ↦ rw e refl
]

send_to_all-queue_of :
    (j : ℕ) (recipients : List ℕ) (bytes : List ℕ) (peer_tx : List Channel)
    → is_alive j peer_tx ≡ true
    → queue_of j (send_to_all recipients bytes peer_tx)
      ≡ queue_of j peer_tx ++ copies j recipients bytes
unfolding send_to_all
send_to_all-queue_of j [] bytes peer_tx h = sym (append-nil (queue_of j peer_tx))
send_to_all-queue_of j (r ∷ recipients) bytes peer_tx h =
    send_to_all-queue_of j recipients bytes (send_to r bytes peer_tx)
      (send_to-is_alive j r bytes peer_tx ∙ h)
    ∙ ap (λ q. q ++ copies j recipients bytes) (send_to-queue_of j r bytes peer_tx h)
    ∙ append_assoc (queue_of j peer_tx) _ (copies j recipients bytes)
    ∙ ap (λ q. queue_of j peer_tx ++ q) (copies_cons j r recipients bytes)

-- Flushing sends each live peer what waits for it, in order.
pub send_pending-queue_of :
    (j : ℕ) (pending : List (List ℕ × List ℕ)) (peer_tx : List Channel)
    → is_alive j peer_tx ≡ true
    → queue_of j (send_pending pending peer_tx) ≡ queue_of j peer_tx ++ waiting_for j pending
unfolding send_pending
send_pending-queue_of j [] peer_tx h = sym (append-nil (queue_of j peer_tx))
send_pending-queue_of j ((bytes, recipients) ∷ pending) peer_tx h =
    send_pending-queue_of j pending (send_to_all recipients bytes peer_tx)
      (send_to_all-is_alive j recipients bytes peer_tx ∙ h)
    ∙ ap (λ q. q ++ waiting_for j pending) (send_to_all-queue_of j recipients bytes peer_tx h)
    ∙ append_assoc (queue_of j peer_tx) (copies j recipients bytes) (waiting_for j pending)

pub send_pending-is_alive :
    (j : ℕ) (pending : List (List ℕ × List ℕ)) (peer_tx : List Channel)
    → is_alive j (send_pending pending peer_tx) ≡ is_alive j peer_tx
unfolding send_pending
send_pending-is_alive j [] peer_tx = refl
send_pending-is_alive j ((bytes, recipients) ∷ pending) peer_tx =
    send_pending-is_alive j pending (send_to_all recipients bytes peer_tx)
    ∙ send_to_all-is_alive j recipients bytes peer_tx

-- A broadcast has each live peer as a recipient once.
copies_none :
    (j a : ℕ) (bytes : List ℕ) (peer_tx : List Channel)
    → j < a
    → copies j (open_peers a peer_tx) bytes ≡ []
unfolding open_peers
copies_none j a bytes [] h = refl
copies_none j a bytes (tx ∷ peer_tx) h =
    let ne : (a == j) ≡ false = ground arith in
    elim (Bool-cases tx.alive) [
      | inl e ↦ rw (e, ne) (copies_none j (suc a) bytes peer_tx (omega arith))
      | inr e ↦ rw e (copies_none j (suc a) bytes peer_tx (omega arith))
    ]

pub copies_once :
    (j k a : ℕ) (bytes : List ℕ) (peer_tx : List Channel)
    → k ≡ a + j
    → is_alive j peer_tx ≡ true
    → copies k (open_peers a peer_tx) bytes ≡ bytes ∷ []
unfolding open_peers
copies_once j k a bytes [] e h = absurd (cc h)
copies_once zero k a bytes (tx ∷ peer_tx) e h =
    let same : (a == k) ≡ true = ground (arith, e) in
    rw (h, same) (ap (λ l. bytes ∷ l) (copies_none k (suc a) bytes peer_tx (omega (arith, e))))
copies_once (suc j) k a bytes (tx ∷ peer_tx) e h =
    let ne : (a == k) ≡ false = ground (arith, e) in
    elim (Bool-cases tx.alive) [
      | inl live ↦ rw (live, ne) (copies_once j k (suc a) bytes peer_tx (omega (arith, e)) h)
      | inr dead ↦ rw dead (copies_once j k (suc a) bytes peer_tx (omega (arith, e)) h)
    ]
