-- ===== src/Vss/Polynomial.antt =====
-- The specification of the share loops of src/core.rs: evaluation of a polynomial.
use govis.Prelude.{◌≡◌, refl, sym, ap, ◌∙◌, List, [], ◌∷◌, map}
use govis.Curve.{Curve}
use govis.Curve.Laws.{add-zero, mul-zero, mul_left_comm, add_left_comm, padd-identity}
use govis.Vss.{share_loop, share_point_loop}

module _ (c : Curve) where
  open c use {
    Scalar, Point, zero_s, one_s, add, mul, generator, identity, padd, scale, add_assoc, mul_assoc,
    mul_comm, one-mul, mul-add, add_comm, zero-add, padd_assoc, scale-add, scale-mul, scale-zero,
  }

  -- The value at `x` of the polynomial with these coefficients, the constant one first.
  unfoldable pub eval : List Scalar → Scalar → Scalar
  eval [] x = zero_s
  eval (a ∷ coeffs) x = add a (mul x (eval coeffs x))

  -- The sum of two polynomials.
  unfoldable pub add_poly : List Scalar → List Scalar → List Scalar
  add_poly [] bs = bs
  add_poly (a ∷ as') [] = a ∷ as'
  add_poly (a ∷ as') (b ∷ bs) = add a b ∷ add_poly as' bs

  pub eval-add_poly :
      (as' bs : List Scalar) (x : Scalar) → eval (add_poly as' bs) x ≡ add (eval as' x) (eval bs x)
  unfolding eval add_poly
  eval-add_poly [] bs x = sym (zero-add (eval bs x))
  eval-add_poly (a ∷ as') [] x = sym (add-zero c (add a (mul x (eval as' x))))
  eval-add_poly (a ∷ as') (b ∷ bs) x =
      simp (eval-add_poly as' bs x, mul-add, add_assoc, add_left_comm c)

  -- The loop adds the rest of the polynomial, shifted by the power of x reached so far.
  pub share_loop-eval :
      (coeffs : List Scalar) (x share x_pow : Scalar)
      → share_loop c coeffs x share x_pow ≡ add share (mul x_pow (eval coeffs x))
  unfolding share_loop eval
  share_loop-eval [] x share x_pow = rw (mul-zero c x_pow) (sym (add-zero c share))
  share_loop-eval (a ∷ coeffs) x share x_pow =
      share_loop-eval coeffs x (add share (mul a x_pow)) (mul x_pow x)
      ∙ simp (mul-add, add_assoc, mul_assoc, mul_comm, mul_left_comm c)

  -- The loop over the commitments is the loop over the coefficients, in the exponent.
  pub share_point_loop-eval :
      (coeffs : List Scalar) (x : Scalar) (p : Point) (x_pow : Scalar)
      → share_point_loop c (map (scale generator) coeffs) x p x_pow
        ≡ padd p (scale generator (mul x_pow (eval coeffs x)))
  unfolding share_point_loop eval
  share_point_loop-eval [] x p x_pow =
      rw (mul-zero c x_pow, scale-zero generator, padd-identity c p) refl
  share_point_loop-eval (a ∷ coeffs) x p x_pow =
      share_point_loop-eval coeffs x (padd p (scale (scale generator a) x_pow)) (mul x_pow x)
      ∙ rw (← scale-mul generator a x_pow, padd_assoc, ← scale-add generator)
          (ap (λ t. padd p (scale generator t))
            (simp (mul-add, mul_assoc, mul_comm, mul_left_comm c)))
