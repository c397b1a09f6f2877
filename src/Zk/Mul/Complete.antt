-- ===== src/Zk/Mul/Complete.antt =====
-- An honest multiplication proof is accepted.
use govis.Prelude.{
  ℕ, ◌+◌, ◌*◌, ◌%◌, ◌^◌, ◌≤◌, ◌<◌, ◌≡◌, refl, sym, ap, ◌∙◌, arith, some, List, true,
}
use govis.Prelude.Int.{pos, nat_abs}
use govis.Prelude.Modular.{pow-add, pow-mul}
use govis.Big.{Big}
use govis.Curve.{be_value}
use govis.Paillier.{PaillierPublicKey}
use govis.Paillier.Arithmetic.{rem?-pos}
use govis.Zk.Powers.{sigma_equation, response_bound}
use govis.Zk.Range.Complete.{n_pos, drawn_below-key, IsPublicKey, n_sq_pos, in_range, same}
use govis.Zk.Mul.{MulProof, mul_challenge, prove_mul, verify_mul}
use native.Mathlib.Nat.{pow-le-pow_right}

mul_equation :
    (n n_sq c_in scalar rho_out t rho_t e : ℕ)
    → n_sq ≡ n * n
    → c_in ^ t
        % n_sq
        * (rho_t ^ n % n_sq)
        % n_sq
        * ((c_in ^ scalar % n_sq * (rho_out ^ n % n_sq) % n_sq) ^ e % n_sq)
        % n_sq
      ≡ c_in ^ (t + e * scalar) % n_sq * ((rho_t * (rho_out ^ e % n) % n) ^ n % n_sq) % n_sq
mul_equation n n_sq c_in scalar rho_out t rho_t e p = rw p (
    sigma_equation n (c_in ^ t) (c_in ^ scalar) (c_in ^ (t + e * scalar)) rho_t rho_out e (
      ap (λ k. k % (n * n))
        (ap (λ k. c_in ^ t * k) (sym (pow-mul c_in scalar e))
          ∙ sym (pow-add c_in t (scalar * e))
          ∙ ap (λ k. c_in ^ k) {x = t + scalar * e} {y = t + e * scalar} (omega arith))))

module _ (big : Big) (sha256 : List ℕ → List ℕ) where
  open big use {modpow, modpow-pos, bits}

  module _ (pk : PaillierPublicKey) (key : IsPublicKey pk) (c_in scalar rho_out bound t rho_t : ℕ)
      (sid : List ℕ) where
    -- The power that the proof is about, re-randomised, with the commitment and the challenge.
    abbrev pub c_out : ℕ
    c_out = c_in ^ scalar % pk.n_sq * (rho_out ^ pk.n % pk.n_sq) % pk.n_sq

    abbrev pub commitment : ℕ
    commitment = c_in ^ t % pk.n_sq * (rho_t ^ pk.n % pk.n_sq) % pk.n_sq

    abbrev pub challenge : ℕ
    challenge =
        nat_abs (mul_challenge big sha256 sid pk.n pk.g (pos c_in) (pos c_out) (pos commitment))

    abbrev pub response : ℕ
    response = rho_t * (rho_out ^ challenge % pk.n) % pk.n

    abbrev pub honest_proof : MulProof
    honest_proof = record {
      c_t = pos commitment;
      z = pos (t + challenge * scalar);
      s_response = pos response;
    }

    challenge-pos :
        mul_challenge big sha256 sid pk.n pk.g (pos c_in) (pos c_out) (pos commitment)
        ≡ pos challenge
    unfolding mul_challenge
    challenge-pos = refl

    prove_mul-honest :
        prove_mul big sha256 pk
          (pos c_in)
          (pos c_out)
          (pos scalar)
          (pos rho_out)
          sid
          (pos t)
          (pos rho_t)
        ≡ some honest_proof
    unfolding prove_mul
    prove_mul-honest =
        rw
          (
            drawn_below-key pk key (pos rho_t),
            modpow-pos c_in t pk.n_sq (n_sq_pos pk key),
            modpow-pos rho_t pk.n pk.n_sq (n_sq_pos pk key),
            rem?-pos (c_in ^ t % pk.n_sq * (rho_t ^ pk.n % pk.n_sq)) pk.n_sq (n_sq_pos pk key),
            challenge-pos,
            modpow-pos rho_out challenge pk.n (n_pos pk key),
            rem?-pos (rho_t * (rho_out ^ challenge % pk.n)) pk.n (n_pos pk key),
          )
          refl

    verify_mul-honest :
        challenge < 2 ^ 256
        → scalar < 2 ^ bound
        → t < 2 ^ (bound + 256)
        → verify_mul big sha256 pk (pos c_in) (pos c_out) bound sid honest_proof ≡ some true
    unfolding verify_mul
    verify_mul-honest he hm ht =
        let wide : 2 ^ (bound + 256) ≤ 2 ^ (bound + 256 + bits pk.n) =
          pow-le-pow_right (omega arith) (omega arith) in
        rw
          (
            in_range (bound + 256 + bits pk.n + 1) (t + challenge * scalar)
                (response_bound bound (bits pk.n) t challenge scalar (omega arith) he hm),
            challenge-pos,
            modpow-pos c_out challenge pk.n_sq (n_sq_pos pk key),
            rem?-pos (commitment * (c_out ^ challenge % pk.n_sq)) pk.n_sq (n_sq_pos pk key),
            modpow-pos c_in (t + challenge * scalar) pk.n_sq (n_sq_pos pk key),
            modpow-pos response pk.n pk.n_sq (n_sq_pos pk key),
            rem?-pos (c_in ^ (t + challenge * scalar) % pk.n_sq * (response ^ pk.n % pk.n_sq))
                pk.n_sq (n_sq_pos pk key),
            mul_equation pk.n pk.n_sq c_in scalar rho_out t rho_t challenge key.n_sq_eq,
          )
          (ap some (same _))

  -- For a public key of the program's form with n above one, and a hash of 32 bytes, with `scalar` below
  -- 2^bound and `t` below 2^(bound + 256): the proof made for the ciphertext c_in^scalar rho_out^n does not panic, and
  -- `verify_mul` accepts it for that ciphertext.
  pub prove_mul-accepted :
      (pk : PaillierPublicKey) (c_in scalar rho_out bound t rho_t : ℕ) (sid : List ℕ)
      → IsPublicKey pk
      → ((bs : List ℕ) → be_value (sha256 bs) < 2 ^ 256)
      → scalar < 2 ^ bound
      → t < 2 ^ (bound + 256)
      → (proof : MulProof) × (prove_mul big sha256 pk
            (pos c_in)
            (pos (c_in ^ scalar % pk.n_sq * (rho_out ^ pk.n % pk.n_sq) % pk.n_sq))
            (pos scalar)
            (pos rho_out)
            sid
            (pos t)
            (pos rho_t)
          ≡ some proof)
        × (verify_mul big sha256 pk
              (pos c_in)
              (pos (c_in ^ scalar % pk.n_sq * (rho_out ^ pk.n % pk.n_sq) % pk.n_sq))
              bound
              sid
              proof
            ≡ some true)
  prove_mul-accepted pk c_in scalar rho_out bound t rho_t sid key hash hs ht = (
    honest_proof pk key c_in scalar rho_out bound t rho_t sid,
    prove_mul-honest pk key c_in scalar rho_out bound t rho_t sid,
    verify_mul-honest pk key c_in scalar rho_out bound t rho_t sid (unfold mul_challenge in hash _)
        hs ht,
  )
