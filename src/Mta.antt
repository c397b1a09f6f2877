-- ===== src/Mta.antt =====
-- src/mta.rs: the multiplication-to-addition protocol over Paillier ciphertexts.
pub mod Runs
use govis.Prelude.{
  ℕ, ◌+◌, ◌^◌, Option, none, some, List, Bool, Outcome, ok, err, panic, expect, ensure,
}
use govis.Prelude.{◌>>=◌, ◌>>◌}
use govis.Prelude.Int.{ℤ, pos, nat_abs, ◌-ℤ◌}
use govis.Big.{Big}
use govis.Big.Draws.{drawn_below}
use govis.Curve.{Curve}
use govis.Paillier.{PaillierPublicKey, PaillierPrivateKey, encrypt_with_rho, add, decrypt}
use govis.Zk.{sec, magnitude_bytes}
use govis.Zk.Range.{RangeProof, prove_range, verify_range}

pub record MtaRound1Msg : Type 0 where
  pub c_b : ℤ
  pub range_proof : RangeProof

pub record MtaRound2Msg : Type 0 where
  pub c_beta : ℤ
  pub nosmall_proof : RangeProof

pub record MtaResult (c : Curve) : Type 0 where
  pub beta : c.Scalar

-- The messages of the two `Err` returns.
pub data MtaError : Type 0 where
  range_proof_failed no_small_factor_proof_failed : MtaError

module _ (big : Big) (sha256 : List ℕ → List ℕ) where
  -- `rho_b`, `alpha` and `gamma` are the values drawn.
  unfoldable pub mta_round1 :
      PaillierPublicKey → ℤ → ℕ → List ℕ → ℤ → ℤ → ℤ → Outcome MtaError (MtaRound1Msg × ℤ)
  mta_round1 pk_j b b_bits sid rho_b alpha gamma = do
    rho ← expect (drawn_below pk_j.n rho_b)
    c_b ← expect (encrypt_with_rho big pk_j b rho)
    range_proof ← expect (prove_range big sha256 pk_j c_b b rho b_bits sid alpha gamma)
    ok (record { c_b = c_b; range_proof = range_proof }, rho)

  abbrev pub dummy_proof : RangeProof
  dummy_proof = record { c_alpha = pos 0; z = pos 0; s = pos 0 }

  -- `alpha`, from 0 .. 2^(a_bits + b_bits + sec) - 1, and `rho_beta` are the values drawn.
  unfoldable pub mta_round2 :
      PaillierPublicKey
      → MtaRound1Msg
      → ℤ
      → ℕ
      → List ℕ
      → ℤ
      → ℤ
      → Outcome MtaError (MtaRound2Msg × ℤ)
  mta_round2 pk_j msg1 a b_bits sid alpha rho_beta = do
    valid ← expect (verify_range big sha256 pk_j msg1.c_b b_bits sid msg1.range_proof)
    ensure valid range_proof_failed
    c_b_a ← expect (big.modpow msg1.c_b a (pos pk_j.n_sq))
    let neg_alpha = pos 0 -ℤ alpha
    rho ← expect (drawn_below pk_j.n rho_beta)
    c_neg_alpha ← expect (encrypt_with_rho big pk_j neg_alpha rho)
    c_beta ← expect (add big pk_j c_b_a c_neg_alpha)
    ok (record { c_beta = c_beta; nosmall_proof = dummy_proof }, alpha)

  unfoldable pub mta_finalize :
      (c : Curve)
      → PaillierPrivateKey
      → PaillierPublicKey
      → MtaRound2Msg
      → ℕ
      → ℕ
      → List ℕ
      → Outcome MtaError (MtaResult c)
  mta_finalize c sk_j pk_j msg2 a_bits b_bits sid = do
    let nosmall_bound = a_bits + b_bits + sec
    valid ← expect (verify_range big sha256 pk_j msg2.c_beta nosmall_bound sid msg2.nosmall_proof)
    ensure valid no_small_factor_proof_failed
    beta_raw ← expect (decrypt big sk_j pk_j msg2.c_beta)
    ok (record { beta = c.from_be_bytes_mod_order (magnitude_bytes big beta_raw) })
