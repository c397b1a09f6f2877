-- ===== src/Vss/Lagrange/Interpolation.antt =====
-- Division of a polynomial by a linear factor, the product of linear factors, and sums over signers.
use govis.Prelude.{
  ℕ, suc, ◌≤◌, ◌≡◌, refl, sym, ap, ap₂, ◌∙◌, ◌≡⟨◌⟩◌, ◌∎, List, [], ◌∷◌, arith, length, All,
}
use govis.Curve.{Curve}
use govis.Curve.Laws
use govis.Vss.Lagrange.{coord}
use govis.Vss.Polynomial.{eval}

module _ (c : Curve) where
  open c use {
    Scalar, zero_s, one_s, add, sub, mul, neg, zero-add, add_assoc, add_comm, add-neg, sub_def,
    mul_assoc, mul_comm, mul-add, one-mul,
  }

  quotient : Scalar → List Scalar → List Scalar
  quotient a [] = []
  quotient a (p ∷ ps) = eval c (p ∷ ps) a ∷ quotient a ps

  -- The quotient of a polynomial by (x - a), its remainder being the value at `a`.
  pub div_poly : Scalar → List Scalar → List Scalar
  div_poly a [] = []
  div_poly a (p ∷ ps) = quotient a ps

  quotient-eval :
      (ps : List Scalar) (a x e : Scalar)
      → add x e ≡ a
      → add (mul x (eval c ps x)) (mul e (eval c (quotient a ps) x)) ≡ mul a (eval c ps a)
  unfolding quotient eval
  quotient-eval [] a x e h =
      rw (Laws.mul-zero c x, Laws.mul-zero c e, Laws.mul-zero c a) (zero-add zero_s)
  quotient-eval (p ∷ ps) a x e h =
      add (mul x (add p (mul x (eval c ps x))))
        (mul e (add (eval c (p ∷ ps) a) (mul x (eval c (quotient a ps) x))))
      ≡⟨ (simp
          (mul-add, add_assoc, add_comm, mul_comm, Laws.add_left_comm c, Laws.mul_left_comm c)) ⟩
        add (mul e (eval c (p ∷ ps) a))
          (mul x (add p (add (mul x (eval c ps x)) (mul e (eval c (quotient a ps) x)))))
      ≡⟨ ap (λ t. add (mul e (eval c (p ∷ ps) a)) (mul x (add p t))) (quotient-eval ps a x e h) ⟩
        add (mul e (eval c (p ∷ ps) a)) (mul x (eval c (p ∷ ps) a))
      ≡⟨ sym (Laws.add-mul c e x (eval c (p ∷ ps) a))
        ∙ ap (λ t. mul t (eval c (p ∷ ps) a)) (add_comm e x ∙ h) ⟩
        mul a (eval c (p ∷ ps) a) ∎

  pub div_poly-eval :
      (ps : List Scalar) (a x e : Scalar)
      → add x e ≡ a
      → add (eval c ps x) (mul e (eval c (div_poly a ps) x)) ≡ eval c ps a
  unfolding div_poly eval
  div_poly-eval [] a x e h = rw (Laws.mul-zero c e) (zero-add zero_s)
  div_poly-eval (p ∷ ps) a x e h =
      add_assoc p (mul x (eval c ps x)) (mul e (eval c (quotient a ps) x))
      ∙ ap (add p) (quotient-eval ps a x e h)

  length-quotient : (a : Scalar) (ps : List Scalar) → length (quotient a ps) ≡ length ps
  unfolding quotient
  length-quotient a [] = refl
  length-quotient a (p ∷ ps) = ap suc (length-quotient a ps)

  pub length-div_poly :
      (a : Scalar) (ps : List Scalar) (n : ℕ) → length ps ≤ suc n → length (div_poly a ps) ≤ n
  unfolding div_poly
  length-div_poly a [] n h = omega arith
  length-div_poly a (p ∷ ps) n h = omega (arith, length-quotient a ps)

  -- (r - x) times a polynomial, less the carry `prev`.
  pub times_linear : Scalar → Scalar → List Scalar → List Scalar
  times_linear r prev [] = neg prev ∷ []
  times_linear r prev (m ∷ ms) = add (mul r m) (neg prev) ∷ times_linear r m ms

  add_neg_cancel : (a b : Scalar) → add (neg a) (add a b) ≡ b
  add_neg_cancel a b =
      sym (add_assoc (neg a) a b) ∙ ap (λ t. add t b) (add_comm (neg a) a ∙ add-neg a) ∙ zero-add b

  times_linear-eval :
      (ms : List Scalar) (r prev x : Scalar)
      → add (add (eval c (times_linear r prev ms) x) prev) (mul x (eval c ms x))
        ≡ mul r (eval c ms x)
  unfolding times_linear eval
  times_linear-eval [] r prev x =
      simp (Laws.mul-zero c, Laws.add-zero c) (add_comm (neg prev) prev ∙ add-neg prev)
  times_linear-eval (m ∷ ms) r prev x =
      add (add (add (add (mul r m) (neg prev)) (mul x (eval c (times_linear r m ms) x))) prev)
        (mul x (add m (mul x (eval c ms x))))
      ≡⟨ (simp (mul-add, add_assoc, add_comm, mul_comm, Laws.add_left_comm c)) ⟩
        add (neg prev) (
          add prev (
            add (mul r m)
              (mul x (add (add (eval c (times_linear r m ms) x) m) (mul x (eval c ms x))))))
      ≡⟨ add_neg_cancel prev _ ⟩
        add (mul r m) (mul x (add (add (eval c (times_linear r m ms) x) m) (mul x (eval c ms x))))
      ≡⟨ ap (λ t. add (mul r m) (mul x t)) (times_linear-eval ms r m x) ⟩
        add (mul r m) (mul x (mul r (eval c ms x)))
      ≡⟨ (simp (mul-add, mul_comm, Laws.mul_left_comm c)) ⟩ mul r (add m (mul x (eval c ms x))) ∎

  length-times_linear :
      (ms : List Scalar) (r prev : Scalar) → length (times_linear r prev ms) ≡ suc (length ms)
  unfolding times_linear
  length-times_linear [] r prev = refl
  length-times_linear (m ∷ ms) r prev = ap suc (length-times_linear ms r m)

  -- The product of (coord j - x) over the signers.
  unfoldable pub vanishing : List ℕ → List Scalar
  vanishing [] = one_s ∷ []
  vanishing (j ∷ signers) = times_linear (coord c j) zero_s (vanishing signers)

  pub length-vanishing : (signers : List ℕ) → length (vanishing signers) ≡ suc (length signers)
  unfolding vanishing
  length-vanishing [] = refl
  length-vanishing (j ∷ signers) =
      length-times_linear (vanishing signers) _ _ ∙ ap suc (length-vanishing signers)

  pub vanishing-eval :
      (j : ℕ) (signers : List ℕ) (x : Scalar)
      → eval c (vanishing (j ∷ signers)) x ≡ mul (sub (coord c j) x) (eval c (vanishing signers) x)
  unfolding vanishing
  vanishing-eval j signers x = Laws.add_cancel c (mul x (eval c (vanishing signers) x)) _ _ (
      add_comm _ _
      ∙ ap (λ t. add t (mul x (eval c (vanishing signers) x))) (sym (Laws.add-zero c _))
      ∙ times_linear-eval (vanishing signers) (coord c j) zero_s x
      ∙ ap (λ t. mul t (eval c (vanishing signers) x))
          (sym (Laws.sub-add_cancel c (coord c j) x) ∙ add_comm _ x)
      ∙ Laws.add-mul c x (sub (coord c j) x) _)

  -- Sums over the signers.
  unfoldable pub sum_over : List ℕ → (ℕ → Scalar) → Scalar
  sum_over [] f = zero_s
  sum_over (i ∷ signers) f = add (f i) (sum_over signers f)

  pub sum_over_congr :
      (signers : List ℕ) (f g : ℕ → Scalar)
      → All (λ i. f i ≡ g i) signers
      → sum_over signers f ≡ sum_over signers g
  unfolding sum_over
  sum_over_congr [] f g h = refl
  sum_over_congr (i ∷ signers) f g (h, hs) = ap₂ add h (sum_over_congr signers f g hs)

  pub sum_over-add :
      (signers : List ℕ) (f g : ℕ → Scalar)
      → sum_over signers (λ i. add (f i) (g i)) ≡ add (sum_over signers f) (sum_over signers g)
  unfolding sum_over
  sum_over-add [] f g = sym (zero-add zero_s)
  sum_over-add (i ∷ signers) f g = simp (sum_over-add signers f g, add_assoc, Laws.add_left_comm c)

  pub mul-sum_over :
      (signers : List ℕ) (a : Scalar) (f : ℕ → Scalar)
      → sum_over signers (λ i. mul a (f i)) ≡ mul a (sum_over signers f)
  unfolding sum_over
  mul-sum_over [] a f = sym (Laws.mul-zero c a)
  mul-sum_over (i ∷ signers) a f =
      ap (add (mul a (f i))) (mul-sum_over signers a f) ∙ sym (mul-add a (f i) (sum_over signers f))

  pub sum_over-zero : (signers : List ℕ) → sum_over signers (λ i. zero_s) ≡ zero_s
  unfolding sum_over
  sum_over-zero [] = refl
  sum_over-zero (i ∷ signers) = zero-add _ ∙ sum_over-zero signers
