-- ===== src/Zk/Mul.antt =====
-- src/paillier_zk.rs: the proof that one ciphertext is a known power of another, times Enc(0).
pub mod Complete
use govis.Prelude.{
  ℕ, ◌+◌, ◌*◌, ◌^◌, if◌then◌else◌, Option, none, some, List, ◌++◌, Bool, true, false, codes,
}
use govis.Prelude.Int.{ℤ, pos, ◌+ℤ◌, ◌*ℤ◌, ◌==ℤ◌, rem?}
use govis.Prelude.Maybe.{◌>>=◌}
use govis.Big.Draws.{drawn_below}
use govis.Big.{Big}
use govis.Curve.{be_value}
use govis.Paillier.{PaillierPublicKey}
use govis.Zk.{magnitude_bytes, sec}
use govis.Zk.Range.{out_of_range}

pub record MulProof : Type 0 where
  pub c_t : ℤ
  pub z : ℤ
  pub s_response : ℤ

module _ (big : Big) (sha256 : List ℕ → List ℕ) where
  open big use {modpow, bits, to_bytes_be}

  unfoldable pub mul_challenge : List ℕ → ℕ → ℕ → ℤ → ℤ → ℤ → ℤ
  mul_challenge sid n g c_in c_out c_t = pos (
      be_value (
        sha256 (
          codes "govis-paillier-mul"
          ++ (sid
              ++ (to_bytes_be n
                  ++ (to_bytes_be g
                      ++ (magnitude_bytes big c_in
                          ++ (magnitude_bytes big c_out ++ magnitude_bytes big c_t))))))))

  -- `t` and `rho_t` are the values drawn.
  unfoldable pub prove_mul : PaillierPublicKey → ℤ → ℤ → ℤ → ℤ → List ℕ → ℤ → ℤ → Option MulProof
  prove_mul pk c_in c_out scalar rho_out sid t drawn = do
    rho_t ← drawn_below pk.n drawn
    c_in_t ← modpow c_in t (pos pk.n_sq)
    enc_zero ← modpow rho_t (pos pk.n) (pos pk.n_sq)
    c_t ← rem? (c_in_t *ℤ enc_zero) pk.n_sq
    let e = mul_challenge sid pk.n pk.g c_in c_out c_t
    rho_e ← modpow rho_out e (pos pk.n)
    s_response ← rem? (rho_t *ℤ rho_e) pk.n
    some (record { c_t = c_t; z = t +ℤ e *ℤ scalar; s_response = s_response })

  unfoldable pub verify_mul : PaillierPublicKey → ℤ → ℤ → ℕ → List ℕ → MulProof → Option Bool
  verify_mul pk c_in c_out scalar_bound_bits sid proof =
      let e = mul_challenge sid pk.n pk.g c_in c_out proof.c_t in
      let checked = (do
        c_out_e ← modpow c_out e (pos pk.n_sq)
        lhs ← rem? (proof.c_t *ℤ c_out_e) pk.n_sq
        c_in_z ← modpow c_in proof.z (pos pk.n_sq)
        s_n ← modpow proof.s_response (pos pk.n) (pos pk.n_sq)
        rhs ← rem? (c_in_z *ℤ s_n) pk.n_sq
        some (lhs ==ℤ rhs)) in
      if out_of_range (scalar_bound_bits + sec + bits pk.n + 1) proof.z then some false else checked
