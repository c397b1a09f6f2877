-- ===== src/Zk/Consistency.antt =====
-- src/paillier_zk.rs: the proof that binds a ciphertext to a nonce point.
pub mod Complete
use govis.Prelude.{
  ℕ, ◌+◌, ◌*◌, Option, none, some, List, ◌++◌, Bool, true, false, is_yes, if◌then◌else◌, codes,
}
use govis.Prelude.Int.{ℤ, pos, nat_abs, ◌+ℤ◌, ◌*ℤ◌, rem?}
use govis.Prelude.Maybe.{◌>>=◌}
use govis.Big.Draws.{drawn_below}
use govis.Big.{Big}
use govis.Curve.{Curve, be_value}
use govis.Vss.{scalar_to_bigint}
use govis.Paillier.{PaillierPublicKey}
use govis.Zk.{g_pow, magnitude_bytes}
use govis.Zk.Log.{paillier_check}

pub record ConsistencyProof (c : Curve) : Type 0 where
  pub c_alpha : ℤ
  pub a : c.Point
  pub z : ℤ
  pub s_response : ℤ

module _ (c : Curve) (big : Big) (sha256 : List ℕ → List ℕ) where
  open c use {Scalar, Point, point_eq, from_be_bytes_mod_order, generator, padd, scale, point_bytes}
  open big use {modpow, to_bytes_be}

  unfoldable pub consistency_challenge : List ℕ → ℕ → ℕ → ℤ → Point → Point → ℤ → ℤ
  consistency_challenge sid n g c' r_point a c_alpha = pos (
      be_value (
        sha256 (
          codes "govis-paillier-ec-consistency"
          ++ (sid
              ++ (to_bytes_be n
                  ++ (to_bytes_be g
                      ++ (magnitude_bytes big c'
                          ++ (point_bytes true r_point
                              ++ (point_bytes true a ++ magnitude_bytes big c_alpha)))))))))

  -- `alpha_scalar` and `gamma` are the values drawn.
  unfoldable pub prove_consistency :
      PaillierPublicKey → ℤ → ℤ → ℤ → Point → List ℕ → Scalar → ℤ → Option (ConsistencyProof c)
  prove_consistency pk m rho c' r_point sid alpha_scalar drawn = do
    gamma ← drawn_below pk.n drawn
    let alpha_bigint = scalar_to_bigint c alpha_scalar
    let a = scale r_point alpha_scalar
    g_alpha ← g_pow alpha_bigint pk.n pk.n_sq
    gamma_n ← modpow gamma (pos pk.n) (pos pk.n_sq)
    c_alpha ← rem? (g_alpha *ℤ gamma_n) pk.n_sq
    let e = consistency_challenge sid pk.n pk.g c' r_point a c_alpha
    rho_e ← modpow rho e (pos pk.n)
    s_response ← rem? (gamma *ℤ rho_e) pk.n
    some (record { c_alpha = c_alpha; a = a; z = alpha_bigint +ℤ e *ℤ m; s_response = s_response })

  unfoldable pub verify_consistency :
      PaillierPublicKey → ℤ → Point → List ℕ → ConsistencyProof c → Option Bool
  verify_consistency pk c' r_point sid proof =
      let e = consistency_challenge sid pk.n pk.g c' r_point proof.a proof.c_alpha in
      let z_scalar = from_be_bytes_mod_order (magnitude_bytes big proof.z) in
      let e_scalar = from_be_bytes_mod_order (magnitude_bytes big e) in
      let lhs = scale r_point z_scalar in
      let rhs = padd proof.a (scale generator e_scalar) in
      let paillier = paillier_check big pk c' proof.c_alpha e proof.z proof.s_response in
      if is_yes (point_eq lhs rhs) then paillier else some false
