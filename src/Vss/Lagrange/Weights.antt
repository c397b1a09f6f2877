-- ===== src/Vss/Lagrange/Weights.antt =====
-- The weights of the signers.
use govis.Prelude.{ℕ, ◌≡◌, ◌≢◌, sym, ap, ◌∙◌, some, List, ◌∷◌, All, All-zip, All-map, none}
use govis.Curve.{Curve}
use govis.Curve.Laws
use govis.Vss.{lagrange_coeff}
use govis.Vss.Lagrange.{
  coord, numer, denom, Apart, Distinct, lagrange_loop-products, denom-ne-zero_self,
}
use mathlib.Core.Option
use govis.Vss.Lagrange.Vanishing.{numer-cons, denom-cons}

module _ (c : Curve) where
  open c use {
    Scalar, zero_s, one_s, add, sub, mul, neg, invert, zero-add, add_assoc, add_comm, add-neg,
    sub_def, mul_assoc, mul_comm, mul-add, one-mul, invert_some, mul-invert, one-ne-zero,
  }

  -- `w` gives each of the signers the quotient of its two products.
  abbrev pub IsWeights : List ℕ → (ℕ → Scalar) → Type 0
  IsWeights signers w = All (λ i. mul (w i) (denom c i signers) ≡ numer c i signers) signers

  -- Weights of the signers without the first, from weights of all.
  weight-cons :
      (a i : ℕ) (signers : List ℕ) (w w' : ℕ → Scalar)
      → Apart c a i
      → denom c i signers ≢ zero_s
      → mul (w i) (denom c i (a ∷ signers)) ≡ numer c i (a ∷ signers)
      → mul (w' i) (denom c i signers) ≡ numer c i signers
      → mul (w i) (sub (coord c a) (coord c i)) ≡ mul (coord c a) (w' i)
  weight-cons a i signers w w' h d p q =
      let (d', e) = invert_some (denom c i signers) d in
      Laws.mul_cancel c (denom c i signers) d' _ _ e (
        mul_comm (denom c i signers) (mul (w i) (sub (coord c a) (coord c i)))
        ∙ mul_assoc (w i) _ _
        ∙ ap (mul (w i)) (sym (denom-cons c a i signers h))
        ∙ p
        ∙ numer-cons c a i signers h
        ∙ ap (mul (coord c a)) (sym q)
        ∙ sym (mul_assoc (coord c a) (w' i) (denom c i signers))
        ∙ mul_comm _ (denom c i signers))

  -- The signers' weights, if each denominator has an inverse.
  pub some_weight : ℕ → List ℕ → Scalar
  some_weight i signers = elim (invert (denom c i signers)) [
    | some d ↦ mul (numer c i signers) d
    | none ↦ zero_s
  ]

  some_weight_lem :
      (i : ℕ) (signers : List ℕ)
      → denom c i signers ≢ zero_s
      → mul (some_weight i signers) (denom c i signers) ≡ numer c i signers
  unfolding some_weight
  some_weight_lem i signers h =
      let (d, e) = invert_some (denom c i signers) h in
      rw (e, some_weight)
        (mul_assoc (numer c i signers) d (denom c i signers)
          ∙ ap (mul (numer c i signers)) (mul_comm d _ ∙ mul-invert _ d e)
          ∙ Laws.mul-one c (numer c i signers))

  pub some_weight-IsWeights :
      (signers : List ℕ) → Distinct c signers → IsWeights signers (λ i. some_weight i signers)
  some_weight-IsWeights signers h =
      All-map signers (λ i. some_weight_lem i signers) (denom-ne-zero_self c signers h)

  abbrev pub PairLaw : ℕ → (ℕ → Scalar) → (ℕ → Scalar) → ℕ → Type 0
  PairLaw a w w' i = mul (w i) (sub (coord c a) (coord c i)) ≡ mul (coord c a) (w' i)

  pub pair_laws :
      (a : ℕ) (signers : List ℕ) (w : ℕ → Scalar)
      → All (Apart c a) signers
      → Distinct c signers
      → All (λ i. mul (w i) (denom c i (a ∷ signers)) ≡ numer c i (a ∷ signers)) signers
      → All (PairLaw a w (λ i. some_weight i signers)) signers
  pair_laws a signers w h hs p =
      All-zip signers
        (λ i (u : Apart c a i × (denom c i signers ≢ zero_s)) q.
          weight-cons a i signers w (λ k. some_weight k signers) u.0 u.1 q
            (some_weight_lem i signers u.1))
        (All-zip signers (λ i u v. (u, v)) h (denom-ne-zero_self c signers hs)) p

  pub lagrange_coeff-some_weight :
      (i : ℕ) (signers : List ℕ)
      → denom c i signers ≢ zero_s
      → lagrange_coeff c i signers ≡ some (some_weight i signers)
  unfolding lagrange_coeff some_weight
  lagrange_coeff-some_weight i signers h =
      let (d, e) = invert_some (denom c i signers) h in
      ap (λ (t : Scalar × Scalar). Option.map (mul t.0) (invert t.1))
        (lagrange_loop-products c i signers one_s one_s ∙ λ k.
          (one-mul (numer c i signers) k, one-mul (denom c i signers) k))
      ∙ rw (e, some_weight)
