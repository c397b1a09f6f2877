-- ===== src/Tests/Connections.antt =====
-- Party 2 of four: the others below it connect in the order 1, 0.
use govis.Prelude.{
  ◌≡◌, refl, arith, ℕ, zero, suc, ◌+◌, ◌<◌, ◌==◌, if◌then◌else◌, some, List, [], ◌∷◌, get_elem?, ok,
  true, panic, ◌≢◌,
}
use govis.Delivery.{Channel, new}
use govis.Delivery.Connect.{connect_tcp}
use govis.Delivery.Connect.Missing.{connect_tcp-panic}
use govis.Delivery.Connect.Peers.{Origin, connect_tcp-Origin}

-- A channel that has had one message, by which it is told from the others.
abbrev marked : ℕ → Channel
marked k = record { alive = true; queue = (k ∷ []) ∷ [] }

abbrev incoming : ℕ → ℕ × Channel
incoming k = if k == 0 then (1, marked 10) else (0, marked 11)

abbrev dials : ℕ → Channel
dials j = marked (j + 20)

lower : (k : ℕ) → k < 2 → (incoming k).0 < 2
lower zero h = omega arith
lower (suc k) h = ground arith

cover : (j : ℕ) → j < 2 → (k : ℕ) × (k < 2) × ((incoming k).0 ≡ j)
cover zero h = (1, omega arith, refl)
cover (suc zero) h = (0, omega arith, refl)
cover (suc (suc j)) h = absurd (omega (arith, h))

connect_tcp-Origin_example :
    (peer_tx : List Channel) × (connect_tcp {E = ℕ}
        (ok tt)
        (λ k. ok (incoming k))
        (λ j. ok (dials j))
        (marked 0)
        2
        4
      ≡ ok (new 2 peer_tx))
    × ((j : ℕ)
        → j < 4
        → (tx : Channel) × (get_elem? peer_tx j ≡ some tx)
          × Origin (marked 0) 2 incoming dials j tx)
connect_tcp-Origin_example =
    connect_tcp-Origin (ok tt) (λ k. ok (incoming k)) (λ j. ok (dials j)) (marked 0) 2 4 incoming
      dials refl (λ k h. refl) lower cover (λ j l u. refl) (omega arith) (omega arith)

-- Both of the connections that are accepted send the index 1.
abbrev twice : ℕ → ℕ × Channel
twice k = (1, marked k)

absent : (k : ℕ) → k < 2 → (twice k).0 ≢ 0
absent k h e = omega (arith, e)

connect_tcp-panic_example :
    connect_tcp {E = ℕ} (ok tt) (λ k. ok (twice k)) (λ j. ok (dials j)) (marked 0) 2 4 ≡ panic
connect_tcp-panic_example =
    connect_tcp-panic (ok tt) (λ k. ok (twice k)) (λ j. ok (dials j)) (marked 0) 2 4 0 twice dials
      refl (λ k h. refl) (λ k h. omega arith) absent (λ j l u. refl) (omega arith) (omega arith)
      (omega arith)
