-- ===== src/Delivery/Connect/Peers.antt =====
-- The table of a party that is connected with every other party.
use govis.Prelude.{
  ℕ, ◌+◌, ◌-◌, ◌<◌, ltb, ◌==◌, ==_iff, Bool-cases, Option, none, some, List, [], replicate,
  get_elem?, All, All-append, Outcome, ok, false, inl, inr, ◌⊎◌, ◌≡◌, refl, sym, ap, ◌∙◌, arith,
}
use govis.Prelude.Slots.{set_elem?, set_elem?-cases}
use govis.Delivery.{Channel, new}
use govis.Delivery.Connect.{fill_slots, unwrap_all, connect_tcp}
use govis.Delivery.Connect.Table.{Slot, fill_slots-Slot, unwrap_all-full}
use govis.Delivery.Connect.Ranges.{All-map_range, at_range, after_append, length-replicate}
use govis.Delivery.Connect.Results.{results, results_lt, connect_tcp-results}
use mathlib.Core.Path.{subst}
use mathlib.Core.List.{append-nil}

module _ (self_tx : Channel) (my_index : ℕ) (incoming : ℕ → ℕ × Channel) (dials : ℕ → Channel) where
  -- The channel is that of the connection with the party `j`: an accepted one that has sent the index
  -- `j`, the party's own, or the one that was dialed.
  abbrev pub Origin : ℕ → Channel → Type 0
  Origin j tx =
      ((k : ℕ) × (k < my_index) × (incoming k ≡ (j, tx)))
      ⊎ (((j ≡ my_index) × (tx ≡ self_tx)) ⊎ ((my_index < j) × (tx ≡ dials j)))

  -- A result of a lower party, or of a dial.
  abbrev FromPeer : ℕ × Channel → Type 0
  FromPeer r =
      ((k : ℕ) × (k < my_index) × (incoming k ≡ r)) ⊎ ((my_index < r.0) × (r.1 ≡ dials r.0))

  FromPeer-Origin : (j : ℕ) (r : ℕ × Channel) → FromPeer r → r.0 ≡ j → Origin j r.1
  FromPeer-Origin j r (inl (k, l, e)) h = inl (k, l, e ∙ ap (λ i. (i, r.1)) h)
  FromPeer-Origin j r (inr (l, e)) h = inr (inr (subst (λ i. my_index < i) h l, e ∙ ap dials h))

  results-FromPeer : (m : ℕ) → All FromPeer (results my_index incoming dials m)
  results-FromPeer m =
      All-append FromPeer _ _
        (All-map_range FromPeer incoming 0 my_index (λ k l u. inl (k, omega (arith, u), refl)))
        (All-map_range FromPeer (λ j. (j, dials j)) (my_index + 1) m
          (λ j l u. inr (omega (arith, l), refl)))

  -- Every party but this one is the sender of a result.
  no_result :
      (m j : ℕ)
      → ((j : ℕ) → j < my_index → (k : ℕ) × (k < my_index) × ((incoming k).0 ≡ j))
      → j < my_index + 1 + m
      → All (λ r. (j == r.0) ≡ false) (results my_index incoming dials m)
      → j ≡ my_index
  no_result m j cover l apart = elim (Bool-cases (j == my_index)) [
    | inl e ↦ (==_iff j my_index).0 e
    | inr e ↦ elim (Bool-cases (ltb j my_index)) [
      | inl f ↦
          let (k, u, same) = cover j (ground (arith, f)) in
          let differ : (j == (incoming k).0) ≡ false =
            at_range (λ (r : ℕ × Channel). (j == r.0) ≡ false) incoming 0 my_index _ apart k
              (omega arith) (omega (arith, u)) in
          absurd (ground (arith, differ, same))
      | inr f ↦
          let differ : (j == j) ≡ false =
            at_range (λ (r : ℕ × Channel). (j == r.0) ≡ false) (λ i. (i, dials i)) (my_index + 1) m
              []
              (subst (All (λ (r : ℕ × Channel). (j == r.0) ≡ false)) (sym (append-nil _))
                (after_append (λ (r : ℕ × Channel). (j == r.0) ≡ false) _ _ apart))
              j (ground (arith, e, f)) l in
          absurd (ground (arith, differ))
    ]
  ]

  Slot-Origin :
      (m j : ℕ) (own filled : List (Option Channel))
      → get_elem? own my_index ≡ some (some self_tx)
      → ((j : ℕ) → j < my_index → (k : ℕ) × (k < my_index) × ((incoming k).0 ≡ j))
      → j < my_index + 1 + m
      → Slot FromPeer (results my_index incoming dials m) own filled j
      → (tx : Channel) × (get_elem? filled j ≡ some (some tx)) × Origin j tx
  Slot-Origin m j own filled at cover l (inr (r, p, e, g)) = (r.1, g, FromPeer-Origin j r p e)
  Slot-Origin m j own filled at cover l (inl (kept, apart)) =
      let here = no_result m j cover l apart in
      (self_tx, kept ∙ ap (get_elem? own) here ∙ at, inr (inl (here, refl)))

  -- The table is filled, and every slot of it can be unwrapped.
  filled_table :
      (m count : ℕ)
      → my_index + 1 + m ≡ count
      → ((k : ℕ) → k < my_index → (incoming k).0 < my_index)
      → ((j : ℕ) → j < my_index → (k : ℕ) × (k < my_index) × ((incoming k).0 ≡ j))
      → (own filled : List (Option Channel)) × (peer_tx : List Channel) × (set_elem? my_index
            (some self_tx)
            (replicate count none)
          ≡ some own)
        × (fill_slots (results my_index incoming dials m) own ≡ some filled)
        × (unwrap_all filled ≡ some peer_tx)
        × ((j : ℕ) → j < count → (tx : Channel) × (get_elem? peer_tx j ≡ some tx) × Origin j tx)
  filled_table m count e lower cover =
      let (own, eo, lo, at, others) =
        set_elem?-cases my_index (some self_tx) (replicate count none)
          (omega (arith, e, length-replicate {A = Option Channel} count none)) in
      let size = lo ∙ length-replicate count none in
      let (filled, ef, lf, slot) =
        fill_slots-Slot FromPeer (results my_index incoming dials m) own
          (subst (λ n. All (λ (r : ℕ × Channel). r.0 < n) (results my_index incoming dials m))
            (sym size)
            (results_lt my_index incoming dials m count e (λ k u. omega (arith, lower k u, e))))
          (results-FromPeer m) in
      let found = λ (j : ℕ) (l : j < count).
        Slot-Origin m j own filled at cover (omega (arith, l, e)) (slot j) in
      let (peer_tx, ep, unwrapped) =
        unwrap_all-full filled
          (λ j l. let (tx, g, o) = found j (omega (arith, l, lf, size)) in (tx, g)) in
      (
        own,
        filled,
        peer_tx,
        eo,
        ef,
        ep,
        λ j l. let (tx, g, o) = found j l in (tx, unwrapped j tx g, o),
      )

-- In any order of the accepted connections: when the lower parties connect once each, and every higher
-- one can be dialed, `connect_tcp` does not panic, and the channel of each party is that of the
-- connection with it.
pub connect_tcp-Origin :
    {E : Type 0} (listening : Outcome E (Unit {0})) (accepted : ℕ → Outcome E (ℕ × Channel))
    (dialed : ℕ → Outcome E Channel) (self_tx : Channel) (my_index count : ℕ)
    (incoming : ℕ → ℕ × Channel) (dials : ℕ → Channel)
    → listening ≡ ok tt
    → ((k : ℕ) → k < my_index → accepted k ≡ ok (incoming k))
    → ((k : ℕ) → k < my_index → (incoming k).0 < my_index)
    → ((j : ℕ) → j < my_index → (k : ℕ) × (k < my_index) × ((incoming k).0 ≡ j))
    → ((j : ℕ) → my_index < j → j < count → dialed j ≡ ok (dials j))
    → my_index < count
    → count < 65536
    → (peer_tx : List Channel) × (connect_tcp listening accepted dialed self_tx my_index count
        ≡ ok (new my_index peer_tx))
      × ((j : ℕ)
          → j < count
          → (tx : Channel) × (get_elem? peer_tx j ≡ some tx)
            × Origin self_tx my_index incoming dials j tx)
connect_tcp-Origin listening accepted dialed self_tx my_index count incoming dials up arrive lower
      cover reach small fits =
    let (own, filled, peer_tx, eo, ef, ep, origin) =
      filled_table self_tx my_index incoming dials m count (omega arith) lower cover in
    (
      peer_tx,
      connect_tcp-results listening accepted dialed self_tx my_index count incoming dials own up
            arrive reach small fits eo
          ∙ rw (ef, ep) refl,
      origin,
    )
  where
    m : ℕ
    m = count - (my_index + 1)
