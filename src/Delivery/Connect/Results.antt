-- ===== src/Delivery/Connect/Results.antt =====
-- The results of the accepted and the dialed connections, and what is left of `connect_tcp` after them.
use govis.Prelude.{
  All-range, ℕ, ◌+◌, ◌-◌, ◌%◌, ◌^◌, ◌<◌, Option, none, some, List, ◌++◌, replicate, All, All-append,
  map, range_from, Outcome, ok, expect, ◌≡◌, refl, arith,
}
use govis.Prelude.{◌>>=◌ as ◌and_then◌}
use govis.Prelude.Slots.{set_elem?}
use govis.Delivery.{Channel, TcpDelivery, new}
use govis.Delivery.Connect.{collect, fill_slots, unwrap_all, dial, connect_tcp}
use govis.Delivery.Connect.Table.{collect-ok}
use govis.Delivery.Connect.Ranges.{All-map_range}

module _ (my_index : ℕ) (incoming : ℕ → ℕ × Channel) (dials : ℕ → Channel) where
  abbrev pub results : ℕ → List (ℕ × Channel)
  results m =
      map incoming (range_from 0 my_index) ++ map (λ j. (j, dials j)) (range_from (my_index + 1) m)

  pub results_lt :
      (m count : ℕ)
      → my_index + 1 + m ≡ count
      → ((k : ℕ) → k < my_index → (incoming k).0 < count)
      → All (λ r. r.0 < count) (results m)
  results_lt m count e lower =
      All-append (λ (r : ℕ × Channel). r.0 < count) _ _
        (All-map_range (λ (r : ℕ × Channel). r.0 < count) incoming 0 my_index
          (λ k l u. lower k (omega (arith, u))))
        (All-map_range (λ (r : ℕ × Channel). r.0 < count) (λ j. (j, dials j)) (my_index + 1) m
          (λ j l u. omega (arith, u, e)))

-- Filling the table with the results, and unwrapping its slots.
abbrev pub filled_delivery :
    {E : Type 0} → ℕ → List (ℕ × Channel) → List (Option Channel) → Outcome E TcpDelivery
filled_delivery my_index rs own = expect (fill_slots rs own) and_then λ filled.
    expect (unwrap_all filled) and_then λ peer_tx. ok (new my_index peer_tx)

pub connect_tcp-results :
    {E : Type 0} (listening : Outcome E (Unit {0})) (accepted : ℕ → Outcome E (ℕ × Channel))
    (dialed : ℕ → Outcome E Channel) (self_tx : Channel) (my_index count : ℕ)
    (incoming : ℕ → ℕ × Channel) (dials : ℕ → Channel) (own : List (Option Channel))
    → listening ≡ ok tt
    → ((k : ℕ) → k < my_index → accepted k ≡ ok (incoming k))
    → ((j : ℕ) → my_index < j → j < count → dialed j ≡ ok (dials j))
    → my_index < count
    → count < 65536
    → set_elem? my_index (some self_tx) (replicate count none) ≡ some own
    → connect_tcp listening accepted dialed self_tx my_index count
      ≡ filled_delivery my_index (results my_index incoming dials (count - (my_index + 1))) own
unfolding connect_tcp
connect_tcp-results listening accepted dialed self_tx my_index count incoming dials own up arrive
      reach small fits eo =
    rw (whole, eo, up, gathered, dialled) refl
  where
    m : ℕ
    m = count - (my_index + 1)

    whole : count % 2 ^ 16 ≡ count
    whole = omega arith

    gathered : collect accepted (range_from 0 my_index) ≡ ok (map incoming (range_from 0 my_index))
    gathered = collect-ok accepted incoming _ (
        All-range (λ k. accepted k ≡ ok (incoming k)) 0 my_index
          (λ k l u. arrive k (omega (arith, u))))

    dialled :
        collect (dial dialed) (range_from (my_index + 1) m)
        ≡ ok (map (λ j. (j, dials j)) (range_from (my_index + 1) m))
    dialled =
        collect-ok (dial dialed) (λ j. (j, dials j)) _
          (All-range (λ j. dial dialed j ≡ ok (j, dials j)) (my_index + 1) m
            (λ j l u. rw (reach j (omega (arith, l)) (omega (arith, u))) refl))
