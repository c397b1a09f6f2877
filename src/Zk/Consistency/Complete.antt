-- ===== src/Zk/Consistency/Complete.antt =====
-- An honest consistency proof is accepted.
use govis.Prelude.{ℕ, ◌+◌, ◌*◌, ◌%◌, ◌^◌, ◌≡◌, refl, ap, ◌∙◌, some, List, true, is_yes_of}
use govis.Prelude.Int.{ℤ, pos, nat_abs}
use govis.Big.{Big}
use govis.Curve.{Curve, be_value}
use govis.Vss.{scalar_to_bigint}
use govis.Paillier.{PaillierPublicKey, encrypt_with_rho}
use govis.Paillier.Arithmetic.{rem?-pos}
use govis.Zk.Range.Complete.{n_pos, drawn_below-key, IsPublicKey, n_sq_pos, g_pow-pos}
use govis.Zk.Log.Complete.{
  cipher_of, commitment_of, response_of, encrypt-cipher_of, paillier_check-honest, from_magnitude,
  scalar_response,
}
use govis.Zk.Consistency.{
  ConsistencyProof, consistency_challenge, prove_consistency, verify_consistency,
}

module _ (c : Curve) (big : Big) (sha256 : List ℕ → List ℕ) (pk : PaillierPublicKey)
    (key : IsPublicKey pk) where
  open c use {
    Scalar, Point, point_eq, add, mul, from_nat, to_be_bytes, generator, padd, scale, scale-add,
    scale-mul, mul_comm,
  }
  open big use {modpow-pos}

  module _ (m rho gamma : ℕ) (r_point : Point) (binds : scale r_point (from_nat m) ≡ generator)
      (sid : List ℕ) (alpha_scalar : Scalar) where
    abbrev alpha : ℕ
    alpha = be_value (to_be_bytes alpha_scalar)

    abbrev challenge : ℕ
    challenge = nat_abs (
        consistency_challenge c big sha256 sid pk.n pk.g (pos (cipher_of pk m rho)) r_point
          (scale r_point alpha_scalar) (pos (commitment_of pk alpha gamma)))

    abbrev honest_proof : ConsistencyProof c
    honest_proof = record {
      c_alpha = pos (commitment_of pk alpha gamma);
      a = scale r_point alpha_scalar;
      z = pos (alpha + challenge * m);
      s_response = pos (response_of pk gamma rho challenge);
    }

    challenge-pos :
        consistency_challenge c big sha256 sid pk.n pk.g
          (pos (cipher_of pk m rho))
          r_point
          (scale r_point alpha_scalar)
          (pos (commitment_of pk alpha gamma))
        ≡ pos challenge
    unfolding consistency_challenge
    challenge-pos = refl

    prove_consistency-honest :
        prove_consistency c big sha256 pk
          (pos m)
          (pos rho)
          (pos (cipher_of pk m rho))
          r_point
          sid
          alpha_scalar
          (pos gamma)
        ≡ some honest_proof
    unfolding prove_consistency scalar_to_bigint
    prove_consistency-honest =
        rw
          (
            drawn_below-key pk key (pos gamma),
            g_pow-pos alpha pk.n pk.n_sq (n_sq_pos pk key),
            modpow-pos gamma pk.n pk.n_sq (n_sq_pos pk key),
            rem?-pos ((1 + alpha * pk.n) % pk.n_sq * (gamma ^ pk.n % pk.n_sq)) pk.n_sq
                (n_sq_pos pk key),
            challenge-pos,
            modpow-pos rho challenge pk.n (n_pos pk key),
            rem?-pos (gamma * (rho ^ challenge % pk.n)) pk.n (n_pos pk key),
          )
          refl

    ec_equation :
        (e : ℕ)
        → scale r_point (from_nat (alpha + e * m))
          ≡ padd (scale r_point alpha_scalar) (scale generator (from_nat e))
    ec_equation e =
        ap (scale r_point) (scalar_response c big alpha_scalar e m)
        ∙ scale-add r_point alpha_scalar _
        ∙ ap (padd (scale r_point alpha_scalar)) (
            ap (scale r_point) (mul_comm (from_nat e) (from_nat m))
            ∙ scale-mul r_point (from_nat m) (from_nat e)
            ∙ ap (λ t. scale t (from_nat e)) binds)

    verify_consistency-honest :
        verify_consistency c big sha256 pk (pos (cipher_of pk m rho)) r_point sid honest_proof
        ≡ some true
    unfolding verify_consistency
    verify_consistency-honest =
        rw
          (
            challenge-pos,
            from_magnitude c big (alpha + challenge * m),
            from_magnitude c big challenge,
            is_yes_of (point_eq _ _) (ec_equation challenge),
          )
          (paillier_check-honest big pk key m rho alpha gamma challenge)

  -- For a public key of the program's form with n above one, and a point R with m R = G, the encryption
  -- of `m` and the proof that binds it to R do not panic, and `verify_consistency` accepts the proof.
  pub prove_consistency-accepted :
      (m rho gamma : ℕ) (r_point : Point) (sid : List ℕ) (alpha_scalar : Scalar)
      → scale r_point (from_nat m) ≡ generator
      → (c' : ℤ) × (proof : ConsistencyProof c) × (encrypt_with_rho big pk (pos m) (pos rho)
          ≡ some c')
        × (prove_consistency c big sha256 pk
              (pos m)
              (pos rho)
              c'
              r_point
              sid
              alpha_scalar
              (pos gamma)
            ≡ some proof)
        × (verify_consistency c big sha256 pk c' r_point sid proof ≡ some true)
  prove_consistency-accepted m rho gamma r_point sid alpha_scalar binds = (
    pos (cipher_of pk m rho),
    honest_proof m rho gamma r_point binds sid alpha_scalar,
    encrypt-cipher_of big pk key m rho,
    prove_consistency-honest m rho gamma r_point binds sid alpha_scalar,
    verify_consistency-honest m rho gamma r_point binds sid alpha_scalar,
  )
