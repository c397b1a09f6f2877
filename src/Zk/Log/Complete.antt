-- ===== src/Zk/Log/Complete.antt =====
-- The Paillier half of the verifiers on honest proofs, and honest discrete-log proofs.
use govis.Prelude.{
  ℕ, ◌+◌, ◌*◌, ◌%◌, ◌^◌, ◌≡◌, refl, sym, ap, ap₂, ◌∙◌, arith, some, List, true, is_yes_of,
}
use govis.Prelude.Int.{ℤ, pos, nat_abs}
use govis.Prelude.Modular.{Congruent}
use govis.Big.{Big}
use govis.Curve.{Curve, be_value}
use govis.Curve.Laws
use govis.Vss.{scalar_to_bigint}
use govis.Paillier.{PaillierPublicKey, encrypt_with_rho}
use govis.Paillier.Arithmetic.{linear_pow, rem?-pos}
use govis.Zk.Powers.{sigma_equation}
use govis.Zk.Range.Complete.{
  n_pos, drawn_below-key, IsPublicKey, n_sq_pos, g_pow-pos, linear_response, same,
}
use govis.Zk.Log.{LogProof, paillier_check, log_challenge, prove_log, verify_log}

power_response :
    (n alpha m e : ℕ)
    → Congruent (n * n) ((1 + alpha * n) * ((n + 1) ^ m) ^ e) ((n + 1) ^ (alpha + e * m))
power_response n alpha m e =
    linear_response n alpha m e
    ∙ ap (λ t. t % (n * n)) {x = 1 + (alpha + e * m) * n} {y = 1 + (alpha + e * m) * 1 * n}
        (omega arith)
    ∙ sym (linear_pow n 1 (alpha + e * m))
    ∙ ap (λ t. t ^ (alpha + e * m) % (n * n)) {x = 1 + 1 * n} {y = n + 1} (omega arith)

check_equation :
    (n n_sq g m rho alpha gamma e : ℕ)
    → n_sq ≡ n * n
    → g ≡ n + 1
    → (1 + alpha * n)
        % n_sq
        * (gamma ^ n % n_sq)
        % n_sq
        * ((g ^ m % n_sq * (rho ^ n % n_sq) % n_sq) ^ e % n_sq)
        % n_sq
      ≡ g ^ (alpha + e * m) % n_sq * ((gamma * (rho ^ e % n) % n) ^ n % n_sq) % n_sq
check_equation n n_sq g m rho alpha gamma e p q =
    rw (p, q)
      (sigma_equation n (1 + alpha * n) ((n + 1) ^ m) ((n + 1) ^ (alpha + e * m)) gamma rho e
        (power_response n alpha m e))

-- The ciphertext of `m`, the commitment to `alpha`, and the response to the challenge `e`.
module _ (pk : PaillierPublicKey) where
  abbrev pub cipher_of : ℕ → ℕ → ℕ
  cipher_of m rho = pk.g ^ m % pk.n_sq * (rho ^ pk.n % pk.n_sq) % pk.n_sq

  abbrev pub commitment_of : ℕ → ℕ → ℕ
  commitment_of alpha gamma = (1 + alpha * pk.n) % pk.n_sq * (gamma ^ pk.n % pk.n_sq) % pk.n_sq

  abbrev pub response_of : ℕ → ℕ → ℕ → ℕ
  response_of gamma rho e = gamma * (rho ^ e % pk.n) % pk.n

module _ (big : Big) (pk : PaillierPublicKey) (key : IsPublicKey pk) where
  open big use {modpow, modpow-pos}

  pub encrypt-cipher_of :
      (m rho : ℕ) → encrypt_with_rho big pk (pos m) (pos rho) ≡ some (pos (cipher_of pk m rho))
  unfolding encrypt_with_rho
  encrypt-cipher_of m rho =
      rw
        (modpow-pos pk.g m pk.n_sq (n_sq_pos pk key), modpow-pos rho pk.n pk.n_sq (n_sq_pos pk key))
        (rem?-pos _ pk.n_sq (n_sq_pos pk key))

  pub paillier_check-honest :
      (m rho alpha gamma e : ℕ)
      → paillier_check big pk
          (pos (cipher_of pk m rho))
          (pos (commitment_of pk alpha gamma))
          (pos e)
          (pos (alpha + e * m))
          (pos (response_of pk gamma rho e))
        ≡ some true
  unfolding paillier_check
  paillier_check-honest m rho alpha gamma e =
      rw
        (
          modpow-pos pk.g (alpha + e * m) pk.n_sq (n_sq_pos pk key),
          modpow-pos (response_of pk gamma rho e) pk.n pk.n_sq (n_sq_pos pk key),
          rem?-pos
              (pk.g ^ (alpha + e * m) % pk.n_sq * (response_of pk gamma rho e ^ pk.n % pk.n_sq))
              pk.n_sq (n_sq_pos pk key),
          modpow-pos (cipher_of pk m rho) e pk.n_sq (n_sq_pos pk key),
          rem?-pos (commitment_of pk alpha gamma * (cipher_of pk m rho ^ e % pk.n_sq)) pk.n_sq
              (n_sq_pos pk key),
          check_equation pk.n pk.n_sq pk.g m rho alpha gamma e key.n_sq_eq key.g_eq,
        )
        (ap some (same _))

module _ (c : Curve) (big : Big) where
  open c use {
    Scalar, Point, add, mul, from_nat, to_be_bytes, from_be_bytes_mod_order, from_be_bytes-be_value,
  }

  -- The magnitude of a number that is not negative, read as a scalar.
  pub from_magnitude : (n : ℕ) → from_be_bytes_mod_order (big.to_bytes_be n) ≡ from_nat n
  from_magnitude n =
      from_be_bytes-be_value (big.to_bytes_be n) ∙ ap from_nat (big.be_value-to_bytes_be n)

  pub scalar_response :
      (alpha : Scalar) (e m : ℕ)
      → from_nat (be_value (to_be_bytes alpha) + e * m) ≡ add alpha (mul (from_nat e) (from_nat m))
  scalar_response alpha e m =
      Laws.from_nat-add c _ (e * m)
      ∙ ap₂ add (Laws.from_nat-be_value c alpha) (Laws.from_nat-mul c e m)

module _ (c : Curve) (big : Big) (sha256 : List ℕ → List ℕ) (pk : PaillierPublicKey)
    (key : IsPublicKey pk) where
  open c use {
    Scalar, Point, point_eq, add, mul, from_nat, to_be_bytes, generator, padd, scale, scale-add,
    scale-mul, mul_comm,
  }
  open big use {modpow-pos}

  module _ (x rho gamma : ℕ) (sid : List ℕ) (alpha_scalar : Scalar) where
    abbrev alpha : ℕ
    alpha = be_value (to_be_bytes alpha_scalar)

    abbrev public : Point
    public = scale generator (from_nat x)

    abbrev challenge : ℕ
    challenge = nat_abs (
        log_challenge c big sha256 sid pk.n pk.g (pos (cipher_of pk x rho)) public
          (scale generator alpha_scalar) (pos (commitment_of pk alpha gamma)))

    abbrev honest_proof : LogProof c
    honest_proof = record {
      c_alpha = pos (commitment_of pk alpha gamma);
      a = scale generator alpha_scalar;
      z = pos (alpha + challenge * x);
      s_response = pos (response_of pk gamma rho challenge);
    }

    challenge-pos :
        log_challenge c big sha256 sid pk.n pk.g
          (pos (cipher_of pk x rho))
          public
          (scale generator alpha_scalar)
          (pos (commitment_of pk alpha gamma))
        ≡ pos challenge
    unfolding log_challenge
    challenge-pos = refl

    prove_log-honest :
        prove_log c big sha256 pk
          (pos (cipher_of pk x rho))
          (pos x)
          (pos rho)
          public
          sid
          alpha_scalar
          (pos gamma)
        ≡ some honest_proof
    unfolding prove_log scalar_to_bigint
    prove_log-honest =
        rw
          (
            drawn_below-key pk key (pos gamma),
            g_pow-pos alpha pk.n pk.n_sq (n_sq_pos pk key),
            modpow-pos gamma pk.n pk.n_sq (n_sq_pos pk key),
            rem?-pos ((1 + alpha * pk.n) % pk.n_sq * (gamma ^ pk.n % pk.n_sq)) pk.n_sq
                (n_sq_pos pk key),
            challenge-pos,
            modpow-pos rho challenge pk.n (n_pos pk key),
            rem?-pos (gamma * (rho ^ challenge % pk.n)) pk.n (n_pos pk key),
          )
          refl

    ec_equation :
        (e : ℕ)
        → scale generator (from_nat (alpha + e * x))
          ≡ padd (scale generator alpha_scalar) (scale public (from_nat e))
    ec_equation e =
        ap (scale generator) (scalar_response c big alpha_scalar e x)
        ∙ scale-add generator alpha_scalar _
        ∙ ap (padd (scale generator alpha_scalar)) (
            ap (scale generator) (mul_comm (from_nat e) (from_nat x))
            ∙ scale-mul generator (from_nat x) (from_nat e))

    verify_log-honest :
        verify_log c big sha256 pk (pos (cipher_of pk x rho)) public sid honest_proof ≡ some true
    unfolding verify_log
    verify_log-honest =
        rw
          (
            challenge-pos,
            from_magnitude c big (alpha + challenge * x),
            from_magnitude c big challenge,
            is_yes_of (point_eq _ _) (ec_equation challenge),
          )
          (paillier_check-honest big pk key x rho alpha gamma challenge)

  -- For a public key of the program's form with n above one, the encryption of `x` and the proof that it
  -- hides the same number as the point x G do not panic, and `verify_log` accepts the proof.
  pub prove_log-accepted :
      (x rho gamma : ℕ) (sid : List ℕ) (alpha_scalar : Scalar)
      → (c' : ℤ) × (proof : LogProof c) × (encrypt_with_rho big pk (pos x) (pos rho) ≡ some c')
        × (prove_log c big sha256 pk c'
              (pos x)
              (pos rho)
              (scale generator (from_nat x))
              sid
              alpha_scalar
              (pos gamma)
            ≡ some proof)
        × (verify_log c big sha256 pk c' (scale generator (from_nat x)) sid proof ≡ some true)
  prove_log-accepted x rho gamma sid alpha_scalar = (
    pos (cipher_of pk x rho),
    honest_proof x rho gamma sid alpha_scalar,
    encrypt-cipher_of big pk key x rho,
    prove_log-honest x rho gamma sid alpha_scalar,
    verify_log-honest x rho gamma sid alpha_scalar,
  )
