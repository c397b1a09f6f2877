-- ===== src/Vss/Lagrange.antt =====
-- `lagrange_coeff`: the weights by which any set of signers, as large as the threshold at least,
-- interpolates the shared polynomial at zero.
pub mod Interpolation
pub mod Vanishing
pub mod Weights
pub mod Secret
use govis.Prelude.{
  ℕ, zero, suc, ◌+◌, ◌≤◌, ◌<◌, ◌≡◌, ◌≢◌, refl, sym, ap, ◌∙◌, ◌≡⟨◌⟩◌, ◌∎, ◌==◌, ==_refl, ==_iff,
  if◌then◌else◌, Option, none, some, List, [], ◌∷◌, map, arith, length, All, All-zip, Bool, true,
  false, Bool-cases, inl, inr, ◌⊎◌,
}
use govis.Curve.{Curve}
use govis.Curve.Laws
use govis.Vss.{lagrange_loop, lagrange_coeff, next_u16}
use govis.Vss.Polynomial.{eval}

module _ (c : Curve) where
  open c use {
    Scalar, zero_s, one_s, add, sub, mul, neg, invert, from_nat, one-mul, zero-add, add_assoc,
    add_comm, add-neg, sub_def, mul_assoc, mul_comm, mul-add, mul-invert, invert_some, one-ne-zero,
  }

  -- The coordinate of a party.
  abbrev pub coord : ℕ → Scalar
  coord j = from_nat (next_u16 j)

  -- The products of the loop, as recursions: over the signers other than `i`.
  unfoldable pub numer : ℕ → List ℕ → Scalar
  numer i [] = one_s
  numer i (j ∷ signers) = if j == i then numer i signers else mul (coord j) (numer i signers)

  unfoldable pub denom : ℕ → List ℕ → Scalar
  denom i [] = one_s
  denom i (j ∷ signers) =
      if j == i then denom i signers else mul (sub (coord j) (coord i)) (denom i signers)

  pub lagrange_loop-products :
      (i : ℕ) (signers : List ℕ) (num den : Scalar)
      → lagrange_loop c i signers num den ≡ (mul num (numer i signers), mul den (denom i signers))
  unfolding lagrange_loop numer denom
  lagrange_loop-products i [] num den =
      λ k. (sym (Laws.mul-one c num) k, sym (Laws.mul-one c den) k)
  lagrange_loop-products i (j ∷ signers) num den = elim (Bool-cases (j == i)) [
    | inl e ↦ rw e (lagrange_loop-products i signers num den)
    | inr e ↦ rw e (
        lagrange_loop-products i signers (mul num (coord j)) (mul den (sub (coord j) (coord i)))
        ∙ λ k. (
          mul_assoc num (coord j) (numer i signers) k,
          mul_assoc den (sub (coord j) (coord i)) (denom i signers) k,
        ))
  ]

  -- Distinct parties with distinct coordinates.
  abbrev pub Apart : ℕ → ℕ → Type 0
  Apart i j = (i ≢ j) × (coord i ≢ coord j)

  abbrev pub Distinct : List ℕ → Type 0
  Distinct [] = Unit
  Distinct (j ∷ signers) = All (Apart j) signers × Distinct signers

  pub sub-ne-zero : (a b : Scalar) → a ≢ b → sub a b ≢ zero_s
  sub-ne-zero a b h e = h (Laws.eq_of_sub-eq-zero c a b e)

  -- A party outside of the signers is apart from each of them.
  pub denom-ne-zero : (i : ℕ) (signers : List ℕ) → All (Apart i) signers → denom i signers ≢ zero_s
  unfolding denom
  denom-ne-zero i [] h = one-ne-zero
  denom-ne-zero i (j ∷ signers) (h, hs) = elim (Bool-cases (j == i)) [
    | inl e ↦ absurd (h.0 (sym ((==_iff j i).0 e)))
    | inr e ↦ rw e (
        Laws.mul-ne-zero c (sub (coord j) (coord i)) (denom i signers)
          (sub-ne-zero (coord j) (coord i) (λ p. h.1 (sym p))) (denom-ne-zero i signers hs))
  ]

  -- A signer among the others.
  pub denom-ne-zero_self :
      (signers : List ℕ) → Distinct signers → All (λ i. denom i signers ≢ zero_s) signers
  unfolding denom
  denom-ne-zero_self [] h = tt
  denom-ne-zero_self (b ∷ signers) (h, hs) = (
    rw (==_refl b) (denom-ne-zero b signers h),
    All-zip signers (λ i p q. grow i p q) h (denom-ne-zero_self signers hs),
  )
    where
      grow : (i : ℕ) → Apart b i → denom i signers ≢ zero_s → denom i (b ∷ signers) ≢ zero_s
      grow i p q = elim (Bool-cases (b == i)) [
        | inl e ↦ absurd (p.0 ((==_iff b i).0 e))
        | inr e ↦ rw e (
            Laws.mul-ne-zero c (sub (coord b) (coord i)) (denom i signers)
              (sub-ne-zero (coord b) (coord i) p.1) q)
      ]
