-- ===== src/Tests/Sharing.antt =====
-- The sharing theorems on the curve of five elements.
use govis.Prelude.{ℕ, ◌==◌, ◌≡◌, refl, [], ◌∷◌, some, none, ok, arith, All, if◌then◌else◌}
use govis.Curve.Toy.{toy, F5, n0, n1, n2, n3, n4, mul5}
use govis.Vss.{evaluate_polynomial, generate_shares_internal, coefficients, lagrange_coeff}
use govis.Vss.Polynomial.{eval}
use govis.Vss.Shares.{generate_shares_internal-evaluate_polynomial}
use govis.Vss.Refresh.{sum_poly, new_share, refresh_keeps_secret}
use govis.Vss.Lagrange.{coord}
use govis.Vss.Lagrange.Interpolation.{sum_over}
use govis.Vss.Lagrange.Secret.{lagrange_coeff-secret}
use govis.Lindell.Dkg.{Network, run_dkg, run_refresh}
use govis.Lindell.Dkg.Rounds.{hashes_of, reveals_of, shares_of}
use govis.Lindell.Dkg.Honest.{rest, refreshed, honest_log, run_dkg-honest, run_refresh-honest}
use govis.Tests.Setup.{constant_hash, line, two_signers, two_signers-Distinct}

abbrev draw_two : ℕ → F5
draw_two k = n2

generate_shares_internal-evaluate_polynomial_example :
    generate_shares_internal toy n3 2 3 draw_two
    ≡ some (record {
      commitments = (evaluate_polynomial toy n3 2 3 draw_two).0;
      secret_shares = (evaluate_polynomial toy n3 2 3 draw_two).1;
    })
generate_shares_internal-evaluate_polynomial_example =
    generate_shares_internal-evaluate_polynomial toy n3 2 3 draw_two (omega arith)

refresh_keeps_secret_example :
    ((x : F5)
      → new_share toy line 2 (draw_two ∷ []) x
        ≡ eval toy (sum_poly toy line (coefficients toy n0 2 draw_two ∷ [])) x)
    × (w : ℕ → F5) × All (λ i. lagrange_coeff toy i two_signers ≡ some (w i)) two_signers
    × (sum_over toy two_signers
          (λ i. mul5 (w i) (new_share toy line 2 (draw_two ∷ []) (coord toy i)))
        ≡ eval toy line n0)
refresh_keeps_secret_example =
    refresh_keeps_secret toy line 2 (draw_two ∷ []) two_signers two_signers-Distinct (omega arith)
      (omega arith) (omega arith)

lagrange_coeff-secret_example :
    (w : ℕ → F5) × All (λ i. lagrange_coeff toy i two_signers ≡ some (w i)) two_signers
    × (sum_over toy two_signers (λ i. mul5 (w i) (eval toy line (coord toy i))) ≡ eval toy line n0)
lagrange_coeff-secret_example =
    lagrange_coeff-secret toy two_signers line two_signers-Distinct (omega arith)

-- Two parties, 0 and 1, with the polynomials 3 + 2 x and 4 + 2 x.
abbrev intercepts : ℕ → F5
intercepts j = if j == 0 then n3 else n4

abbrev drawn : ℕ → ℕ → F5
drawn j k = n2

abbrev network : Network toy ℕ ℕ
network = record {
  on_send = λ m. none;
  on_flush = none;
  commitments_hashes = ok (
      hashes_of toy constant_hash intercepts (rest toy constant_hash 2 2 intercepts drawn) (7 ∷ [])
        (1 ∷ []));
  reveals = ok (
      reveals_of toy constant_hash intercepts (rest toy constant_hash 2 2 intercepts drawn)
        (1 ∷ []));
  shares = ok (
      shares_of toy constant_hash intercepts (rest toy constant_hash 2 2 intercepts drawn) 0
        (1 ∷ []));
}

run_dkg-honest_example : run_dkg toy constant_hash network 0 2 2 (7 ∷ []) n3 draw_two ≡ (
  honest_log toy constant_hash 2 2 intercepts drawn (7 ∷ []) 0,
  ok (record {
    secret_share =
        sum_over toy two_signers
          (λ j. eval toy (coefficients toy (intercepts j) 2 (drawn j)) (coord toy 0));
    public_key = sum_over toy two_signers intercepts;
  }),
)
run_dkg-honest_example =
    run_dkg-honest toy constant_hash 2 2 intercepts drawn network 0 (7 ∷ []) (omega arith)
      (λ m. refl) refl refl refl refl

abbrev zeros : ℕ → F5
zeros j = n0

abbrev refresh_network : Network toy ℕ ℕ
refresh_network = record {
  on_send = λ m. none;
  on_flush = none;
  commitments_hashes = ok (
      hashes_of toy constant_hash zeros (rest toy constant_hash 2 2 zeros drawn) (7 ∷ []) (1 ∷ []));
  reveals =
      ok (reveals_of toy constant_hash zeros (rest toy constant_hash 2 2 zeros drawn) (1 ∷ []));
  shares =
      ok (shares_of toy constant_hash zeros (rest toy constant_hash 2 2 zeros drawn) 0 (1 ∷ []));
}

run_refresh-honest_example :
    (run_refresh toy constant_hash refresh_network 0 2 2 (7 ∷ []) (eval toy line n1) n3 draw_two ≡ (
      honest_log toy constant_hash 2 2 zeros drawn (7 ∷ []) 0,
      ok (record {
        secret_share = eval toy (refreshed toy constant_hash 2 2 drawn line) n1;
        public_key = n3;
      }),
    ))
    × (eval toy (refreshed toy constant_hash 2 2 drawn line) n0 ≡ eval toy line n0)
run_refresh-honest_example =
    run_refresh-honest toy constant_hash 2 2 drawn line n3 (7 ∷ []) refresh_network 0 (omega arith)
      (λ m. refl) refl refl refl refl
