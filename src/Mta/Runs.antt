-- ===== src/Mta/Runs.antt =====
-- What the three steps of the multiplication protocol come to.
use govis.Prelude.{
  ℕ, suc, ◌+◌, ◌%◌, ◌^◌, ◌<◌, ◌≡◌, refl, arith, Option, some, none, List, true, Outcome, ok, panic,
  expect, ◌>>=◌,
}
use govis.Prelude.Int.{ℤ, pos, negsuc, ◌-ℤ◌}
use govis.Big.{Big}
use govis.Curve.{Curve, be_value}
use govis.Paillier.{PaillierPublicKey, PaillierPrivateKey, encrypt_with_rho}
use govis.Paillier.Plaintext.{IsKeypair, Opens, decrypt-Opens}
use govis.Zk.Log.Complete.{from_magnitude}
use govis.Zk.Range.{verify_range}
use govis.Zk.Range.Complete.{IsPublicKey, drawn_below-key, prove_range-accepted}
use govis.Zk.Range.Forged.{verify_range-forged}
use govis.Mta.{
  MtaError, MtaRound1Msg, MtaRound2Msg, dummy_proof, mta_round1, mta_round2, mta_finalize,
}
use native.Mathlib.Nat.{one-le-pow}

negated : (n : ℕ) → pos 0 -ℤ pos (suc n) ≡ negsuc n
negated n = ground arith

module _ (big : Big) (sha256 : List ℕ → List ℕ) where
  -- For a public key of the program's form with n above one, and a hash of 32 bytes: with an honest first
  -- message, for `b` and `alpha` within their bounds, which passes the range check, the second step panics,
  -- unless the mask drawn is 0: it encrypts the negated mask, and `modpow` takes no negative exponent. (The first step itself answers.)
  pub mta_round2-panics :
      (pk_j : PaillierPublicKey) (b b_bits rho_b alpha gamma a mask rho_beta : ℕ) (sid : List ℕ)
      → IsPublicKey pk_j
      → ((bs : List ℕ) → be_value (sha256 bs) < 2 ^ 256)
      → b < 2 ^ b_bits
      → alpha < 2 ^ (b_bits + 256 + big.bits pk_j.n)
      → (msg1 : MtaRound1Msg) × (mta_round1 big sha256 pk_j
            (pos b)
            b_bits
            sid
            (pos rho_b)
            (pos alpha)
            (pos gamma)
          ≡ ok (msg1, pos rho_b))
        × (verify_range big sha256 pk_j msg1.c_b b_bits sid msg1.range_proof ≡ some true)
        × (mta_round2 big sha256 pk_j msg1 (pos a) b_bits sid (pos (suc mask)) (pos rho_beta)
            ≡ panic)
  unfolding mta_round1 mta_round2
  mta_round2-panics pk_j b b_bits rho_b alpha gamma a mask rho_beta sid key hash hb ha =
      let (c_b, proof, enc, proved, accepted) =
        prove_range-accepted big sha256 pk_j b rho_b b_bits alpha gamma sid key hash hb ha in
      (
        record { c_b = c_b; range_proof = proof },
        rw (drawn_below-key pk_j key (pos rho_b), enc, proved),
        accepted,
        rw
            (
              accepted,
              negated mask,
              drawn_below-key pk_j key (pos rho_beta),
              encrypt_with_rho-negsuc' pk_j mask rho_beta,
            )
            (either (big.modpow c_b (pos a) (pos pk_j.n_sq))),
      )
    where
      encrypt_with_rho-negsuc' :
          (pk : PaillierPublicKey) (m rho : ℕ) → encrypt_with_rho big pk (negsuc m) (pos rho) ≡ none
      encrypt_with_rho-negsuc' pk m rho =
          unfold encrypt_with_rho in rw (big.modpow-negsuc (pos pk.g) (pos pk.n_sq) m)

      stopped : ℤ → Outcome MtaError (MtaRound2Msg × ℤ)
      stopped x = panic

      either : (o : Option ℤ) → (expect o >>= stopped) ≡ panic
      either none = refl
      either (some x) = refl

  -- The stand-in proof passes: for a ciphertext that opens to `m` the last step answers, whatever the
  -- bounds, and its share is the decryption `m` modulo n, as a scalar. No bound on `m` is asked for.
  pub mta_finalize-Opens :
      (c : Curve) (pk_j : PaillierPublicKey) (sk_j : PaillierPrivateKey)
      (c_beta m a_bits b_bits : ℕ) (sid : List ℕ)
      → IsKeypair pk_j sk_j
      → Opens pk_j sk_j c_beta m
      → mta_finalize big sha256 c sk_j pk_j
          (record { c_beta = pos c_beta; nosmall_proof = dummy_proof big sha256 })
          a_bits
          b_bits
          sid
        ≡ ok (record { beta = c.from_nat (m % pk_j.n) })
  unfolding mta_finalize
  mta_finalize-Opens c pk_j sk_j c_beta m a_bits b_bits sid key o =
      rw
        (
          verify_range-forged big sha256 pk_j c_beta (a_bits + b_bits + 256) 0 sid
              (omega (arith, key.n_large)) (rw (key.n_sq_eq) (grind (arith, key.n_large)))
              (one-le-pow _ 2 (omega arith)),
          decrypt-Opens big pk_j sk_j key c_beta m o,
          from_magnitude c big (m % pk_j.n),
        )
        refl
