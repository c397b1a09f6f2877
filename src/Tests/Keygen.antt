-- ===== src/Tests/Keygen.antt =====
-- Two parties make a key.
use govis.Prelude.{
  ◌≡◌, refl, ℕ, zero, suc, ◌<◌, ◌==◌, if◌then◌else◌, none, some, List, [], ◌∷◌, map, ok, arith,
  true, false,
}
use govis.Prelude.Int.{ℤ, pos}
use govis.Net.{broadcast, Returns}
use govis.Big.{toy_big}
use govis.Curve.Toy.{toy, n0, n1, n2, n3}
use govis.Vss.{scalar_to_bigint, coefficients, share_point, share_point_loop}
use govis.Vss.Polynomial.{eval}
use govis.Vss.Lagrange.Interpolation.{sum_over}
use govis.Paillier.{PaillierKeypair, encrypt_with_rho}
use govis.Zk.{g_pow}
use govis.Zk.Blum.{
  BlumProof, prove_blum, prove_steps, prove_step, root_of, push, sqrt_mod_prime,
  is_quadratic_residue_mod_prime, verify_blum, count_valid, root_valid, blum_challenge,
}
use govis.Zk.Log.{LogProof, prove_log, log_challenge}
use govis.Big.Draws.{drawn_below}
use govis.Cggmp21.Keygen.{Network, Draws, round1, round2, round3, seal_share, run_keygen}
use govis.Cggmp21.Keygen.Checked.{Sound, run_keygen_ok}
use govis.Cggmp21.Keygen.Keys.{Party, msg1}
use govis.Cggmp21.Keygen.Shares.{DrawnFor, Seals, share_for, points, msg2, msg3}
use govis.Cggmp21.Keygen.Honest.{run_keygen-honest}
use govis.Tests.Setup.{constant_hash, public_77, private_77, private_77-IsKeypair}

abbrev keys : PaillierKeypair
keys = record { pk = public_77; sk = private_77 }

-- The polynomials 1 + x and 2 + x.
abbrev pub dealt : ℕ → Draws toy
dealt j = record {
  p = 7;
  q = 11;
  kp = keys;
  ec_secret = if j == 0 then n1 else n2;
  coefficient = λ k. n1;
  nonce = n3;
  schnorr_alpha = n1;
  rho = λ k. pos 1;
  log_alpha = λ k. n2;
  gamma = λ k. pos 1;
}

abbrev session : List ℕ
session = 9 ∷ []

-- The proof that its prover makes for 77, and one whose single root is 1.
abbrev blum_of : ℕ → BlumProof
blum_of j =
    if j == 0
    then elim (prove_blum toy_big constant_hash 7 11 77 session) [
      | some proof ↦ proof
      | none ↦ record { challenge_indices = []; bits = []; roots = [] }
    ]
    else record { challenge_indices = 0 ∷ []; bits = true ∷ []; roots = pos 1 ∷ [] }

abbrev sealed_for : ℕ → ℕ → ℤ × LogProof toy
sealed_for s i =
    elim (seal_share toy toy_big constant_hash (dealt s) session
      (points toy toy_big constant_hash dealt session 2 2 s)
      (share_for toy toy_big constant_hash dealt session 2 2 s i) public_77 i) [
        | some made ↦ made
        | none ↦ (pos 0, record { c_alpha = pos 0; a = n0; z = pos 0; s_response = pos 0 })
      ]

abbrev keygen_network : Network toy ℕ ℕ
keygen_network = record {
  on_send = λ m. none;
  round1_msgs =
      ok (map (λ j. (j, msg1 toy toy_big constant_hash dealt session blum_of j)) (1 ∷ []));
  round2_msgs = ok (map (λ j. (j, msg2 toy toy_big constant_hash dealt session 2 2 j)) (1 ∷ []));
  round3_msgs =
      ok (map (λ j. (j, msg3 toy toy_big constant_hash dealt session 2 2 sealed_for j)) (1 ∷ []));
}

made_by_prover : prove_blum toy_big constant_hash 7 11 77 session ≡ some (blum_of 0)
unfolding prove_blum prove_steps prove_step root_of push sqrt_mod_prime
    is_quadratic_residue_mod_prime blum_challenge
made_by_prover = refl

drawn_01 : DrawnFor toy toy_big constant_hash dealt session 2 2 0 1
unfolding coefficients eval
drawn_01 = record {
  rho_n = 1;
  gamma_n = 1;
  rho_eq = refl;
  gamma_eq = refl;
  unit = refl;
  fits = omega arith;
}

drawn_10 : DrawnFor toy toy_big constant_hash dealt session 2 2 1 0
unfolding coefficients eval
drawn_10 = record {
  rho_n = 1;
  gamma_n = 1;
  rho_eq = refl;
  gamma_eq = refl;
  unit = refl;
  fits = omega arith;
}

seals :
    (s j : ℕ)
    → s < 2
    → j < 2
    → (s == j) ≡ false
    → Seals toy toy_big constant_hash dealt session 2 2 sealed_for s j
unfolding seal_share drawn_below encrypt_with_rho prove_log log_challenge g_pow scalar_to_bigint
    coefficients eval share_point share_point_loop
seals zero zero hs hj ne = absurd (cc ne)
seals zero (suc zero) hs hj ne = record {
  key = private_77-IsKeypair;
  drawn = drawn_01;
  made = refl;
}
seals (suc zero) zero hs hj ne = record {
  key = private_77-IsKeypair;
  drawn = drawn_10;
  made = refl;
}
seals (suc zero) (suc zero) hs hj ne = absurd (cc ne)
seals (suc (suc s)) j hs hj ne = absurd (omega arith)
seals s (suc (suc j)) hs hj ne = absurd (omega arith)

peer_in_session :
    (j : ℕ) → j < 2 → (j == 0) ≡ false → Party toy toy_big constant_hash dealt session blum_of j
unfolding verify_blum count_valid root_valid blum_challenge
peer_in_session zero h ne = absurd (cc ne)
peer_in_session (suc zero) h ne = record { key = private_77-IsKeypair; accepted = refl }
peer_in_session (suc (suc j)) h ne = absurd (omega arith)

run_keygen-honest_example :
    run_keygen toy toy_big constant_hash keygen_network 0 2 2 session (dealt 0) ≡ (
      broadcast (round1 (msg1 toy toy_big constant_hash dealt session blum_of 0))
          ∷ broadcast (round2 (msg2 toy toy_big constant_hash dealt session 2 2 0))
          ∷ broadcast (round3 (msg3 toy toy_big constant_hash dealt session 2 2 sealed_for 0))
          ∷ [],
      ok (record {
        ec_share = n0;
        public_key = n3;
        paillier_sk = private_77;
        paillier_pk = public_77;
        peer_paillier_pks = some public_77 ∷ some public_77 ∷ [];
      }),
    )
unfolding sum_over coefficients eval
run_keygen-honest_example =
    run_keygen-honest toy toy_big constant_hash dealt session 2 2 keygen_network 0 blum_of
      sealed_for (omega arith) peer_in_session seals made_by_prover (λ m. refl) refl refl refl

run_keygen_ok_example :
    Returns
      (Sound toy toy_big constant_hash keygen_network 0 session (dealt 0))
      (run_keygen toy toy_big constant_hash keygen_network 0 2 2 session (dealt 0))
run_keygen_ok_example =
    run_keygen_ok toy toy_big constant_hash keygen_network 0 2 2 session (dealt 0)
