-- ===== src/Delivery/Connect.antt =====
-- src/tcp_delivery.rs: how `connect_tcp` fills the table of channels. The sockets are arguments: whether
-- the listener starts, what each accept delivers (the index that the other side sends, and the channel
-- to its write task), and what each dial comes to.
pub mod Table
pub mod Ranges
pub mod Results
pub mod Peers
pub mod Missing
use govis.Prelude.{
  ℕ, zero, suc, ◌+◌, ◌-◌, ◌%◌, ◌^◌, Option, none, some, List, [], ◌∷◌, ◌++◌, replicate, range_from,
  Outcome, ok, err, panic, expect,
}
use govis.Prelude.{◌>>=◌ as ◌and_then◌}
use govis.Prelude.Maybe.{◌>>=◌}
use govis.Prelude.Slots.{set_elem?}
use govis.Delivery.{Channel, TcpDelivery, new}

-- `results.push(h.await.unwrap()?)` over the handles: the first error ends it.
unfoldable pub collect : {E A : Type 0} → (ℕ → Outcome E A) → List ℕ → Outcome E (List A)
collect handle [] = ok []
collect handle (k ∷ ks) =
    handle k and_then λ a. collect handle ks and_then λ results. ok (a ∷ results)

-- `peer_tx[usize::from(sender)] = Some(tx)` over the results: `none` is the panic of an index that is
-- out of range.
unfoldable pub fill_slots : {A : Type 0} → List (ℕ × A) → List (Option A) → Option (List (Option A))
fill_slots [] peer_tx = some peer_tx
fill_slots ((sender, tx) ∷ results) peer_tx = do
  changed ← set_elem? sender (some tx) peer_tx
  fill_slots results changed

-- `peer_tx.into_iter().map(|o| o.unwrap()).collect()`.
unfoldable pub unwrap_all : {A : Type 0} → List (Option A) → Option (List A)
unwrap_all [] = some []
unwrap_all (slot ∷ slots) = do tx ← slot; txs ← unwrap_all slots; some (tx ∷ txs)

-- A dial of the party `j`, with the index that its result carries.
abbrev pub dial : {E : Type 0} → (ℕ → Outcome E Channel) → ℕ → Outcome E (ℕ × Channel)
dial dialed j = dialed j and_then λ tx. ok (j, tx)

unfoldable pub connect_tcp :
    {E : Type 0}
    → Outcome E (Unit {0})
    → (ℕ → Outcome E (ℕ × Channel))
    → (ℕ → Outcome E Channel)
    → Channel
    → ℕ
    → ℕ
    → Outcome E TcpDelivery
connect_tcp listening accepted dialed self_tx my_index count =
    let n = count % 2 ^ 16 in
    expect (set_elem? my_index (some self_tx) (replicate n none)) and_then λ own.
    listening and_then λ _. collect accepted (range_from 0 my_index) and_then λ lower.
    collect (dial dialed) (range_from (my_index + 1) (n - (my_index + 1))) and_then λ higher.
    expect (fill_slots (lower ++ higher) own) and_then λ filled.
    expect (unwrap_all filled) and_then λ peer_tx. ok (new my_index peer_tx)
