-- ===== src/Zk/Log.antt =====
-- src/paillier_zk.rs: the proof that a ciphertext and a curve point hide the same number.
pub mod Complete
use govis.Prelude.{
  ℕ, ◌+◌, ◌*◌, Option, none, some, List, ◌++◌, Bool, true, false, is_yes, if◌then◌else◌, codes,
}
use govis.Prelude.Int.{ℤ, pos, nat_abs, ◌+ℤ◌, ◌*ℤ◌, ◌==ℤ◌, rem?}
use govis.Prelude.Maybe.{◌>>=◌}
use govis.Big.Draws.{drawn_below}
use govis.Big.{Big}
use govis.Curve.{Curve, be_value}
use govis.Vss.{scalar_to_bigint}
use govis.Paillier.{PaillierPublicKey}
use govis.Zk.{g_pow, magnitude_bytes}

-- The Paillier half of the verifiers, c_alpha c^e against g^z s^n modulo n².
unfoldable pub paillier_check : Big → PaillierPublicKey → ℤ → ℤ → ℤ → ℤ → ℤ → Option Bool
paillier_check big pk c c_alpha e z s_response = do
  g_z ← big.modpow (pos pk.g) z (pos pk.n_sq)
  s_n ← big.modpow s_response (pos pk.n) (pos pk.n_sq)
  rhs ← rem? (g_z *ℤ s_n) pk.n_sq
  c_e ← big.modpow c e (pos pk.n_sq)
  lhs ← rem? (c_alpha *ℤ c_e) pk.n_sq
  some (lhs ==ℤ rhs)

pub record LogProof (c : Curve) : Type 0 where
  pub c_alpha : ℤ
  pub a : c.Point
  pub z : ℤ
  pub s_response : ℤ

module _ (c : Curve) (big : Big) (sha256 : List ℕ → List ℕ) where
  open c use {Scalar, Point, point_eq, from_be_bytes_mod_order, generator, padd, scale, point_bytes}
  open big use {modpow, to_bytes_be}

  unfoldable pub log_challenge : List ℕ → ℕ → ℕ → ℤ → Point → Point → ℤ → ℤ
  log_challenge sid n g c' public a c_alpha = pos (
      be_value (
        sha256 (
          codes "govis-paillier-log"
          ++ (sid
              ++ (to_bytes_be n
                  ++ (to_bytes_be g
                      ++ (magnitude_bytes big c'
                          ++ (point_bytes true public
                              ++ (point_bytes true a ++ magnitude_bytes big c_alpha)))))))))

  -- `alpha_scalar` and `gamma` are the values drawn.
  unfoldable pub prove_log :
      PaillierPublicKey → ℤ → ℤ → ℤ → Point → List ℕ → Scalar → ℤ → Option (LogProof c)
  prove_log pk c' x rho public sid alpha_scalar drawn = do
    gamma ← drawn_below pk.n drawn
    let alpha_bi = scalar_to_bigint c alpha_scalar
    let a = scale generator alpha_scalar
    g_alpha ← g_pow alpha_bi pk.n pk.n_sq
    gamma_n ← modpow gamma (pos pk.n) (pos pk.n_sq)
    c_alpha ← rem? (g_alpha *ℤ gamma_n) pk.n_sq
    let e = log_challenge sid pk.n pk.g c' public a c_alpha
    rho_e ← modpow rho e (pos pk.n)
    s_response ← rem? (gamma *ℤ rho_e) pk.n
    some (record { c_alpha = c_alpha; a = a; z = alpha_bi +ℤ e *ℤ x; s_response = s_response })

  unfoldable pub verify_log : PaillierPublicKey → ℤ → Point → List ℕ → LogProof c → Option Bool
  verify_log pk c' public sid proof =
      let e = log_challenge sid pk.n pk.g c' public proof.a proof.c_alpha in
      let z_scalar = from_be_bytes_mod_order (magnitude_bytes big proof.z) in
      let e_scalar = from_be_bytes_mod_order (magnitude_bytes big e) in
      let lhs_ec = scale generator z_scalar in
      let rhs_ec = padd proof.a (scale public e_scalar) in
      let paillier = paillier_check big pk c' proof.c_alpha e proof.z proof.s_response in
      if is_yes (point_eq lhs_ec rhs_ec) then paillier else some false
