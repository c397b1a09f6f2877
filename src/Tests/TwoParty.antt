-- ===== src/Tests/TwoParty.antt =====
-- Two-party signing on the curve of five elements, with the key 77.
use govis.Ecdsa.{verify_signature}
use govis.Lindell.Sign.{Round3Msg, Network, P1Draws, P2Draws, find_from}
use govis.Lindell.Sign.Rounds.{
  run_sign, sign_round1, sign_round2, sign_round3_other, check_signature,
}
use govis.Vss.{lagrange_coeff, lagrange_loop}
use govis.Lindell.Sign.Verified.{run_sign_ok}
use govis.Curve.Toy.{F5-discrete}
use govis.Prelude.{none, true}
use govis.Prelude.{ℕ, ◌*◌, ◌^◌, ◌≤◌, ◌<◌, ◌≡◌, refl, [], ◌∷◌, some, ok, arith}
use govis.Prelude.Int.{pos}
use govis.Big.{toy_big}
use govis.Curve.{be_value}
use govis.Curve.Toy.{toy, F5, n0, n1, n2, n3, n4, bytes5}
use govis.Vss.{point_x_coord}
use govis.Vss.Polynomial.{eval}
use govis.Ecdsa.{recovery_id}
use govis.Lindell.Sign.{P1Data, p1_data, P2Data, p2_data, P1State}
use govis.Lindell.Sign.Parties.{p1_round1, p2_round2, p1_round3}
use govis.Lindell.Sign.Honest.{p1_round3-p2_round2}
use govis.Tests.Setup.{
  constant_hash, constant_hash_lt, public_77, private_77, private_77-IsKeypair, line, two_signers,
  two_signers-Distinct, weights, weights_lem,
}
use govis.Prelude.{slice?}
use native.Mathlib.Nat.{mul-le-mul}

number_le : (s : F5) → be_value (bytes5 s) ≤ 4
number_le n0 = omega arith
number_le n1 = omega arith
number_le n2 = omega arith
number_le n3 = omega arith
number_le n4 = omega arith

products_lt : (s t : F5) → be_value (bytes5 s) * be_value (bytes5 t) < 77
products_lt s t = omega (arith, mul-le-mul (number_le s) (number_le t))

numbers_lt : (s : F5) → be_value (bytes5 s) < 2 ^ 256
numbers_lt s = omega (arith, number_le s)

p1_round3-p2_round2_example :
    (state : P1State toy) × (data1 : P1Data toy) × (data2 : P2Data) × (p1_round1 toy toy_big
        constant_hash {R = ℕ} {S = ℕ}
        (record {
          kp = record { pk = public_77; sk = private_77 };
          k = n2;
          rho = pos 2;
          range_alpha = pos 9;
          range_gamma = pos 3;
          consistency_alpha = n4;
          consistency_gamma = pos 5;
        })
      ≡ ok (state, data1))
    × (p2_round2 toy toy_big constant_hash {R = ℕ} {S = ℕ}
          (record { rho_s2 = pos 3; mul_t = pos 8; mul_rho = pos 4 })
          0
          n4
          n1
          (eval toy line n2)
          ((0, p1_data data1) ∷ [])
        ≡ ok data2)
    × (p1_round3 toy toy_big constant_hash {R = ℕ} {S = ℕ}
          (some state)
          0
          1
          two_signers
          n1
          (eval toy line n1)
          ((1, p2_data data2) ∷ [])
        ≡ ok (record { r_bytes = bytes5 n2; s_bytes = bytes5 n1; rec_id = 0 }))
unfolding eval
p1_round3-p2_round2_example =
    p1_round3-p2_round2 toy toy_big constant_hash public_77 private_77 0 1 0 2 9 3 5 3 8 4 weights
      line n2 n3 n4 n2 n1 private_77-IsKeypair constant_hash_lt numbers_lt products_lt
      two_signers-Distinct (omega arith) weights_lem refl (unfold point_x_coord slice? in refl)
      (unfold recovery_id in refl) refl (omega arith) refl (omega arith)

-- A third party, which only receives the signature.
abbrev signature : Round3Msg
signature = record { r_bytes = bytes5 n2; s_bytes = bytes5 n1; rec_id = 0 }

abbrev pub third_network : Network toy ℕ ℕ
third_network = record {
  on_send = λ m. none;
  msgs1 = ok [];
  msgs2 = ok [];
  msgs3 = ok ((0, signature) ∷ []);
}

abbrev pub no_draws1 : P1Draws toy
no_draws1 = record {
  kp = record { pk = public_77; sk = private_77 };
  k = n2;
  rho = pos 2;
  range_alpha = pos 9;
  range_gamma = pos 3;
  consistency_alpha = n4;
  consistency_gamma = pos 5;
}

abbrev pub no_draws2 : P2Draws
no_draws2 = record { rho_s2 = pos 3; mul_t = pos 8; mul_rho = pos 4 }

third_run :
    (run_sign toy toy_big constant_hash third_network 2 3 0 1 n2 n3 (1 ∷ []) no_draws1 no_draws2).1
    ≡ ok signature
unfolding run_sign sign_round1 sign_round2 sign_round3_other check_signature find_from
    lagrange_coeff lagrange_loop verify_signature point_x_coord slice? F5-discrete
third_run = refl

run_sign_ok_example : verify_signature toy n3 (1 ∷ []) (bytes5 n2) (bytes5 n1) ≡ some true
run_sign_ok_example =
    run_sign_ok toy toy_big constant_hash third_network 2 3 0 1 n2 n3 (1 ∷ []) no_draws1 no_draws2
      signature third_run
