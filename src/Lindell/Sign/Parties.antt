-- ===== src/Lindell/Sign/Parties.antt =====
-- src/lindell/sign.rs: what the two signers compute in each round.
use govis.Prelude.{ℕ, ◌*◌, ◌^◌, Option, List, codes, Outcome, ok, err, expect, ok_or, ensure, Bool}
use govis.Prelude.{◌>>=◌ as ◌and_then◌}
use govis.Prelude.Int.{pos, ◌*ℤ◌, rem?}
use govis.Big.{Big}
use govis.Curve.{Curve}
use govis.Vss.{lagrange_coeff, point_x_coord, scalar_to_bigint, biguint_to_scalar}
use govis.Ecdsa.{recovery_id}
use govis.Big.Draws.{drawn_below}
use govis.Paillier.{PaillierPublicKey, encrypt_with_rho, decrypt}
use govis.Zk.Range.{prove_range, verify_range}
use govis.Zk.Mul.{prove_mul, verify_mul}
use govis.Zk.Consistency.{prove_consistency, verify_consistency}
use govis.Lindell.Sign.{
  curve_bits, P1Data, Round1Msg, p1_data, P2Data, Round2Msg, p2_data, ack, Round3Msg, Error,
  P1State, P1Draws, P2Draws, find_from, to_biguint, p2_no_p1_data, p2_got_ack, p2_range_proof,
  p2_consistency_proof, p1_no_state, p1_no_p2_data, p1_got_ack, p1_mul_proof, protocol_violation,
}

module _ (c : Curve) (big : Big) (sha256 : List ℕ → List ℕ) where
  open c use {
    Scalar, Point, add, mul, invert, from_be_bytes_mod_order, to_be_bytes, generator, scale,
    point_bytes,
  }

  -- The first signer's part of round 1.
  unfoldable pub p1_round1 : {R S : Type 0} → P1Draws c → Outcome (Error R S) (P1State c × P1Data c)
  p1_round1 draws =
      let kp = draws.kp in
      expect (invert draws.k) and_then λ k_inv.
      let r_point = scale generator draws.k in
      let m = scalar_to_bigint c k_inv in
      expect (encrypt_with_rho big kp.pk m draws.rho) and_then λ c_k_inv.
      expect (
        prove_range big sha256 kp.pk c_k_inv m draws.rho curve_bits (codes "sign") draws.range_alpha
          draws.range_gamma)
      and_then λ range_proof.
          expect (
            prove_consistency c big sha256 kp.pk m draws.rho c_k_inv r_point (codes "sign")
              draws.consistency_alpha draws.consistency_gamma)
          and_then λ consistency_proof. ok (
            record {
              sk = kp.sk;
              pk = kp.pk;
              k = draws.k;
              k_inv = k_inv;
              r_point_bytes = point_bytes Bool.true r_point;
              c_k_inv = c_k_inv;
            },
            record {
              point = r_point;
              c_k_inv = c_k_inv;
              pk_n = kp.pk.n;
              pk_g = kp.pk.g;
              range_proof = range_proof;
              consistency_proof = consistency_proof;
            },
          )

  -- The second signer's checks of round 1.
  unfoldable pub p2_check :
      {R S : Type 0} → P1Data c → PaillierPublicKey → Outcome (Error R S) (Unit {0})
  p2_check data1 p1_pk =
      expect
        (verify_range big sha256 p1_pk data1.c_k_inv curve_bits (codes "sign") data1.range_proof)
      and_then λ range_ok. ensure range_ok (protocol_violation p2_range_proof) and_then λ _.
          expect (
            verify_consistency c big sha256 p1_pk data1.c_k_inv data1.point (codes "sign")
              data1.consistency_proof)
          and_then λ consistent. ensure consistent (protocol_violation p2_consistency_proof)

  -- Its ciphertext of k_inv λ (m + r share), re-randomised, with the proof.
  unfoldable pub p2_respond :
      {R S : Type 0}
      → P2Draws
      → P1Data c
      → PaillierPublicKey
      → Scalar
      → Scalar
      → Scalar
      → Outcome (Error R S) P2Data
  p2_respond draws data1 p1_pk lambda msg share = expect (point_x_coord c data1.point) and_then λ r.
      let mul_scalar = mul lambda (add msg (mul r share)) in
      let mul_scalar_bi = scalar_to_bigint c mul_scalar in
      let n_sq = p1_pk.n * p1_pk.n in
      expect (big.modpow data1.c_k_inv mul_scalar_bi (pos n_sq)) and_then λ power.
      expect (drawn_below p1_pk.n draws.rho_s2) and_then λ rho_s2.
      expect (encrypt_with_rho big p1_pk (pos 0) rho_s2) and_then λ enc_zero.
      expect (rem? (power *ℤ enc_zero) n_sq) and_then λ c_s2.
      expect (
        prove_mul big sha256 p1_pk data1.c_k_inv c_s2 mul_scalar_bi rho_s2 (codes "sign")
          draws.mul_t draws.mul_rho)
      and_then λ mul_proof. ok (record { c_s2 = c_s2; mul_proof = mul_proof })

  -- The second signer's part of round 2.
  unfoldable pub p2_round2 :
      {R S : Type 0}
      → P2Draws
      → ℕ
      → Scalar
      → Scalar
      → Scalar
      → List (ℕ × Round1Msg c)
      → Outcome (Error R S) P2Data
  p2_round2 draws first lambda msg share msgs1 =
      ok_or (protocol_violation p2_no_p1_data) (find_from first msgs1) and_then λ p1_msg.
      elim p1_msg [
        | p1_data data1 ↦
            let p1_pk : PaillierPublicKey = record {
              n = data1.pk_n;
              n_sq = data1.pk_n ^ 2;
              g = data1.pk_g;
            } in
            p2_check data1 p1_pk and_then λ _. p2_respond draws data1 p1_pk lambda msg share
        | ack ↦ err (protocol_violation p2_got_ack)
      ]

  -- The first signer's completion of the signature, from what the second one sent.
  unfoldable pub p1_complete :
      {R S : Type 0}
      → P1State c
      → ℕ
      → List ℕ
      → Scalar
      → Scalar
      → P2Data
      → Outcome (Error R S) Round3Msg
  p1_complete state i signers msg share data2 =
      expect (
        verify_mul big sha256 state.pk state.c_k_inv data2.c_s2 curve_bits (codes "sign")
          data2.mul_proof)
      and_then λ mul_ok. ensure mul_ok (protocol_violation p1_mul_proof) and_then λ _.
          expect (decrypt big state.sk state.pk data2.c_s2) and_then λ decrypted.
          expect (to_biguint decrypted) and_then λ s2_biguint.
          expect (lagrange_coeff c i signers) and_then λ lambda1.
          expect (point_x_coord c (scale generator state.k)) and_then λ r.
          expect (recovery_id c (scale generator state.k)) and_then λ rec_id.
          let s2_scalar = biguint_to_scalar c big.to_bytes_be s2_biguint in
          let partial_s1 = mul (mul lambda1 state.k_inv) (add msg (mul r share)) in
          let s1 = add partial_s1 s2_scalar in
          ok (record { r_bytes = to_be_bytes r; s_bytes = to_be_bytes s1; rec_id = rec_id })

  -- The first signer's part of round 3.
  unfoldable pub p1_round3 :
      {R S : Type 0}
      → Option (P1State c)
      → ℕ
      → ℕ
      → List ℕ
      → Scalar
      → Scalar
      → List (ℕ × Round2Msg)
      → Outcome (Error R S) Round3Msg
  p1_round3 p1_state i second signers msg share msgs2 =
      ok_or (protocol_violation p1_no_state) p1_state and_then λ state.
      ok_or (protocol_violation p1_no_p2_data) (find_from second msgs2) and_then λ p2_msg.
      elim p2_msg [
        | p2_data data2 ↦ p1_complete state i signers msg share data2
        | ack ↦ err (protocol_violation p1_got_ack)
      ]
