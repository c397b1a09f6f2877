-- ===== src/Vss/Lagrange/Secret.antt =====
-- Lagrange weights reconstruct the value at zero.
use govis.Prelude.{
  ℕ, suc, ◌≤◌, ◌≡◌, refl, sym, ap, ap₂, ◌∙◌, some, List, [], ◌∷◌, arith, length, All, All-map,
}
use govis.Curve.{Curve}
use govis.Curve.Laws
use govis.Vss.{lagrange_coeff}
use govis.Vss.Lagrange.{coord, numer, denom, Apart, Distinct, denom-ne-zero, denom-ne-zero_self}
use govis.Vss.Lagrange.Interpolation.{
  div_poly, div_poly-eval, length-div_poly, vanishing, length-vanishing, sum_over, sum_over_congr,
  sum_over-add, mul-sum_over, sum_over-zero,
}
use govis.Vss.Polynomial.{eval}
use govis.Vss.Lagrange.Vanishing.{
  denom-head, numer-head, vanishing-zeros, vanishing-denom, vanishing-numer,
}
use govis.Vss.Lagrange.Weights.{
  IsWeights, some_weight, some_weight-IsWeights, PairLaw, pair_laws, lagrange_coeff-some_weight,
}

module _ (c : Curve) where
  open c use {
    Scalar, zero_s, one_s, add, sub, mul, neg, invert, zero-add, add_assoc, add_comm, add-neg,
    sub_def, mul_assoc, mul_comm, mul-add, one-mul, invert_some, mul-invert, one-ne-zero,
  }

  -- The weighted values of a polynomial.
  abbrev pub weighted : (ℕ → Scalar) → List ℕ → List Scalar → Scalar
  weighted w signers f = sum_over c signers (λ i. mul (w i) (eval c f (coord c i)))

  abbrev total : (ℕ → Scalar) → List ℕ → Scalar
  total w signers = sum_over c signers w

  value_split :
      (a i : ℕ) (w w' : ℕ → Scalar) (f : List Scalar)
      → PairLaw c a w w' i
      → add
          (mul (w i) (eval c f (coord c i)))
          (mul (coord c a) (mul (w' i) (eval c (div_poly c (coord c a) f) (coord c i))))
        ≡ mul (eval c f (coord c a)) (w i)
  value_split a i w w' f h =
      ap (add (mul (w i) (eval c f (coord c i))))
        (sym (mul_assoc (coord c a) (w' i) q) ∙ ap (λ t. mul t q) (sym h) ∙ mul_assoc (w i) _ q)
      ∙ sym (mul-add (w i) _ _)
      ∙ ap (mul (w i)) (
          div_poly-eval c f (coord c a) (coord c i) (sub (coord c a) (coord c i))
            (add_comm _ _ ∙ Laws.sub-add_cancel c (coord c a) (coord c i)))
      ∙ mul_comm (w i) _
    where
      q : Scalar
      q = eval c (div_poly c (coord c a) f) (coord c i)

  -- All the weighted values, and the first coordinate times those of the quotient without it.
  weighted_split :
      (a : ℕ) (signers : List ℕ) (w w' : ℕ → Scalar) (f : List Scalar)
      → All (PairLaw c a w w') signers
      → add
          (weighted w (a ∷ signers) f)
          (mul (coord c a) (weighted w' signers (div_poly c (coord c a) f)))
        ≡ mul (eval c f (coord c a)) (total w (a ∷ signers))
  unfolding sum_over
  weighted_split a signers w w' f h =
      add_assoc _ _ _
      ∙ ap₂ add (mul_comm (w a) (eval c f (coord c a))) (
          ap (add (weighted w signers f)) (sym (mul-sum_over c signers (coord c a) _))
          ∙ sym (sum_over-add c signers _ _)
          ∙ sum_over_congr c signers _ _ (All-map signers (λ i. value_split a i w w' f) h)
          ∙ mul-sum_over c signers (eval c f (coord c a)) w)
      ∙ sym (mul-add (eval c f (coord c a)) (w a) _)

  -- On the vanishing polynomial of the others only the first signer counts.
  weighted-vanishing :
      (a : ℕ) (signers : List ℕ) (w : ℕ → Scalar)
      → All (Apart c a) signers
      → mul (w a) (denom c a (a ∷ signers)) ≡ numer c a (a ∷ signers)
      → weighted w (a ∷ signers) (vanishing c signers) ≡ eval c (vanishing c signers) zero_s
  unfolding sum_over
  weighted-vanishing a signers w h p =
      ap₂ add
        (ap (mul (w a)) (vanishing-denom c a signers h ∙ sym (denom-head c a signers))
          ∙ p
          ∙ numer-head c a signers
          ∙ sym (vanishing-numer c a signers h))
        (sum_over_congr c signers _ (λ i. zero_s)
            (All-map signers (λ i e. ap (mul (w i)) e ∙ Laws.mul-zero c (w i))
              (vanishing-zeros c signers))
          ∙ sum_over-zero c signers)
      ∙ Laws.add-zero c _

  -- The value at zero, from the quotient's.
  value_at_zero :
      (a : ℕ) (f : List Scalar)
      → add (eval c f zero_s) (mul (coord c a) (eval c (div_poly c (coord c a) f) zero_s))
        ≡ eval c f (coord c a)
  value_at_zero a f = div_poly-eval c f (coord c a) zero_s (coord c a) (zero-add (coord c a))

  module _ (a : ℕ) (signers : List ℕ) (w : ℕ → Scalar) (d : All (Apart c a) signers)
      (ds : Distinct c signers) (p : mul (w a) (denom c a (a ∷ signers)) ≡ numer c a (a ∷ signers))
      (ps : All (λ i. mul (w i) (denom c i (a ∷ signers)) ≡ numer c i (a ∷ signers)) signers)
      (rest : (g : List Scalar)
        → length g ≤ length signers
        → weighted (λ i. some_weight c i signers) signers g ≡ eval c g zero_s) where
    abbrev carry : List Scalar → Scalar
    carry g = mul (coord c a) (eval c (div_poly c (coord c a) g) zero_s)

    split :
        (g : List Scalar)
        → length g ≤ suc (length signers)
        → add (weighted w (a ∷ signers) g) (carry g)
          ≡ mul (eval c g (coord c a)) (total w (a ∷ signers))
    split g hg =
        ap (λ t. add (weighted w (a ∷ signers) g) (mul (coord c a) t))
          (sym
            (rest (div_poly c (coord c a) g) (length-div_poly c (coord c a) g (length signers) hg)))
        ∙ weighted_split a signers w (λ i. some_weight c i signers) g
            (pair_laws c a signers w d ds ps)

    total-one : total w (a ∷ signers) ≡ one_s
    total-one =
        let (b, e) =
          invert_some (eval c n (coord c a))
            (λ z. denom-ne-zero c a signers d (sym (vanishing-denom c a signers d) ∙ z)) in
        Laws.mul_cancel c (eval c n (coord c a)) b _ _ e (
          sym (split n (omega (arith, length-vanishing c signers)))
          ∙ ap (λ t. add t (carry n)) (weighted-vanishing a signers w d p)
          ∙ value_at_zero a n
          ∙ sym (Laws.mul-one c _))
      where
        n : List Scalar
        n = vanishing c signers

    weighted_step :
        (f : List Scalar)
        → length f ≤ suc (length signers)
        → weighted w (a ∷ signers) f ≡ eval c f zero_s
    weighted_step f h = Laws.add_cancel c (carry f) _ _ (
        add_comm (carry f) _
        ∙ split f h
        ∙ ap (mul (eval c f (coord c a))) total-one
        ∙ Laws.mul-one c _
        ∙ sym (value_at_zero a f)
        ∙ add_comm _ (carry f))

  -- For distinct signers, as many as the polynomial has coefficients at least, the weighted values add
  -- up to the value at zero.
  pub weighted-secret :
      (signers : List ℕ) (w : ℕ → Scalar) (f : List Scalar)
      → Distinct c signers
      → IsWeights c signers w
      → length f ≤ length signers
      → weighted w signers f ≡ eval c f zero_s
  weighted-secret [] w [] d p h = unfold sum_over eval in refl
  weighted-secret [] w (f ∷ fs) d p h = absurd (omega arith)
  weighted-secret (a ∷ signers) w f (d, ds) (p, ps) h =
      weighted_step a signers w d ds p ps
        (λ g hg.
          weighted-secret signers (λ i. some_weight c i signers) g ds
            (some_weight-IsWeights c signers ds) hg)
        f h

  -- Any set of distinct signers reconstructs the secret: `lagrange_coeff` answers for each of them (it
  -- does not panic), and the values that a polynomial with at most as many coefficients as there are
  -- signers takes at their coordinates, weighted by the answers, add up to its value at zero.
  pub lagrange_coeff-secret :
      (signers : List ℕ) (f : List Scalar)
      → Distinct c signers
      → length f ≤ length signers
      → (w : ℕ → Scalar) × All (λ i. lagrange_coeff c i signers ≡ some (w i)) signers
        × (sum_over c signers (λ i. mul (w i) (eval c f (coord c i))) ≡ eval c f zero_s)
  lagrange_coeff-secret signers f d h = (
    λ i. some_weight c i signers,
    All-map signers (λ i. lagrange_coeff-some_weight c i signers) (denom-ne-zero_self c signers d),
    weighted-secret signers (λ i. some_weight c i signers) f d (some_weight-IsWeights c signers d)
        h,
  )
