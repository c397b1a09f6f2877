-- ===== src/Zk/Schnorr.antt =====
-- src/paillier_zk.rs: the Schnorr proof of knowledge of a discrete logarithm.
use govis.Prelude.{ℕ, ◌≡◌, ap, ◌∙◌, List, ◌++◌, Bool, true, is_yes, is_yes_of, codes}
use govis.Curve.{Curve}

pub record SchnorrProof (c : Curve) : Type 0 where
  pub a : c.Point
  pub z : c.Scalar

module _ (c : Curve) (sha256 : List ℕ → List ℕ) where
  open c use {
    Scalar, Point, point_eq, add, mul, from_be_bytes_mod_order, generator, padd, scale, point_bytes,
    scale-add, scale-mul, mul_comm,
  }

  unfoldable pub schnorr_challenge : Point → Point → List ℕ → Scalar
  schnorr_challenge a public sid =
      from_be_bytes_mod_order
        (sha256 (codes "govis-schnorr" ++ (sid ++ (point_bytes true a ++ point_bytes true public))))

  -- `alpha` is the scalar drawn.
  unfoldable pub prove_schnorr : Scalar → Point → List ℕ → Scalar → SchnorrProof c
  prove_schnorr secret public sid alpha =
      let a = scale generator alpha in
      let e = schnorr_challenge a public sid in record { a = a; z = add alpha (mul e secret) }

  unfoldable pub verify_schnorr : Point → List ℕ → SchnorrProof c → Bool
  verify_schnorr public sid proof =
      let e = schnorr_challenge proof.a public sid in
      is_yes (point_eq (scale generator proof.z) (padd proof.a (scale public e)))

  -- The proof that the holder of a secret makes for its public point is accepted in the same session.
  pub prove_schnorr-accepted :
      (secret : Scalar) (sid : List ℕ) (alpha : Scalar)
      → verify_schnorr
          (scale generator secret)
          sid
          (prove_schnorr secret (scale generator secret) sid alpha)
        ≡ true
  unfolding verify_schnorr prove_schnorr
  prove_schnorr-accepted secret sid alpha = is_yes_of (point_eq _ _) (
      scale-add generator alpha (mul e secret)
      ∙ ap (padd (scale generator alpha))
          (ap (scale generator) (mul_comm e secret) ∙ scale-mul generator secret e))
    where
      e : Scalar
      e = schnorr_challenge (scale generator alpha) (scale generator secret) sid
