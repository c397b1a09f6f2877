-- ===== src/Zk/Range.antt =====
-- src/paillier_zk.rs: the range proof of a Paillier ciphertext.
pub mod Complete
pub mod Forged
use govis.Prelude.{
  ℕ, ◌+◌, ◌*◌, ◌^◌, leb, if◌then◌else◌, Option, none, some, List, ◌++◌, Bool, true, false, ◌||◌,
  codes,
}
use govis.Prelude.Int.{ℤ, pos, ◌+ℤ◌, ◌*ℤ◌, ◌==ℤ◌, rem?, is_neg, pos_part}
use govis.Prelude.Maybe.{◌>>=◌}
use govis.Prelude.Bytes.{u64_be_bytes}
use govis.Big.Draws.{drawn_below}
use govis.Big.{Big}
use govis.Curve.{be_value}
use govis.Paillier.{PaillierPublicKey}
use govis.Zk.{g_pow, magnitude_bytes, sec}

pub record RangeProof : Type 0 where
  pub c_alpha : ℤ
  pub z : ℤ
  pub s : ℤ

-- `proof.z >= bound || proof.z < 0`, with `bound = 1 << (ell + sec + n_bit + 1)`.
unfoldable pub out_of_range : ℕ → ℤ → Bool
out_of_range bound_bits z = leb (2 ^ bound_bits) (pos_part z) || is_neg z

module _ (big : Big) (sha256 : List ℕ → List ℕ) where
  open big use {modpow, bits, to_bytes_be}

  unfoldable pub range_challenge : List ℕ → ℕ → ℕ → ℕ → ℤ → ℤ → ℤ
  range_challenge sid n g ell c c_alpha = pos (
      be_value (
        sha256 (
          codes "govis-paillier-range"
          ++ (sid
              ++ (to_bytes_be n
                  ++ (to_bytes_be g
                      ++ (u64_be_bytes ell
                          ++ (magnitude_bytes big c ++ magnitude_bytes big c_alpha))))))))

  -- `alpha` and `gamma` are the values drawn.
  unfoldable pub prove_range :
      PaillierPublicKey → ℤ → ℤ → ℤ → ℕ → List ℕ → ℤ → ℤ → Option RangeProof
  prove_range pk c m rho ell sid alpha drawn = do
    gamma ← drawn_below pk.n drawn
    g_alpha ← g_pow alpha pk.n pk.n_sq
    gamma_n ← modpow gamma (pos pk.n) (pos pk.n_sq)
    c_alpha ← rem? (g_alpha *ℤ gamma_n) pk.n_sq
    let e = range_challenge sid pk.n pk.g ell c c_alpha
    rho_e ← modpow rho e (pos pk.n)
    s ← rem? (gamma *ℤ rho_e) pk.n
    some (record { c_alpha = c_alpha; z = alpha +ℤ e *ℤ m; s = s })

  unfoldable pub verify_range : PaillierPublicKey → ℤ → ℕ → List ℕ → RangeProof → Option Bool
  verify_range pk c ell sid proof =
      let e = range_challenge sid pk.n pk.g ell c proof.c_alpha in
      let checked = (do
        c_e ← modpow c e (pos pk.n_sq)
        lhs ← rem? (proof.c_alpha *ℤ c_e) pk.n_sq
        g_z ← g_pow proof.z pk.n pk.n_sq
        s_n ← modpow proof.s (pos pk.n) (pos pk.n_sq)
        rhs ← rem? (g_z *ℤ s_n) pk.n_sq
        some (lhs ==ℤ rhs)) in
      if out_of_range (ell + sec + bits pk.n + 1) proof.z then some false else checked
