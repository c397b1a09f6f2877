-- ===== src/Vss/Lagrange/Vanishing.antt =====
-- The products of the Lagrange weights, and the polynomial that vanishes at the signers.
use govis.Prelude.{
  ℕ, ◌≡◌, sym, ap, ap₂, ◌∙◌, ◌==◌, ==_refl, ==_iff, List, [], ◌∷◌, All, All-map, Bool-cases, inl,
  inr,
}
use govis.Curve.{Curve}
use govis.Curve.Laws
use govis.Vss.Lagrange.{coord, numer, denom, Apart}
use govis.Vss.Lagrange.Interpolation.{vanishing, vanishing-eval}
use govis.Vss.Polynomial.{eval}

module _ (c : Curve) where
  open c use {
    Scalar, zero_s, one_s, add, sub, mul, neg, invert, zero-add, add_assoc, add_comm, add-neg,
    sub_def, mul_assoc, mul_comm, mul-add, one-mul, invert_some, mul-invert, one-ne-zero,
  }

  pub numer-cons :
      (a i : ℕ) (signers : List ℕ)
      → Apart c a i
      → numer c i (a ∷ signers) ≡ mul (coord c a) (numer c i signers)
  unfolding numer
  numer-cons a i signers h = elim (Bool-cases (a == i)) [
    | inl e ↦ absurd (h.0 ((==_iff a i).0 e))
    | inr e ↦ rw e
  ]

  pub denom-cons :
      (a i : ℕ) (signers : List ℕ)
      → Apart c a i
      → denom c i (a ∷ signers) ≡ mul (sub (coord c a) (coord c i)) (denom c i signers)
  unfolding denom
  denom-cons a i signers h = elim (Bool-cases (a == i)) [
    | inl e ↦ absurd (h.0 ((==_iff a i).0 e))
    | inr e ↦ rw e
  ]

  pub denom-head : (a : ℕ) (signers : List ℕ) → denom c a (a ∷ signers) ≡ denom c a signers
  unfolding denom
  denom-head a signers = rw (==_refl a)

  pub numer-head : (a : ℕ) (signers : List ℕ) → numer c a (a ∷ signers) ≡ numer c a signers
  unfolding numer
  numer-head a signers = rw (==_refl a)

  -- The vanishing polynomial is zero at each signer, and gives the two products of any other party.
  vanishing-zero :
      (j : ℕ) (signers : List ℕ) → eval c (vanishing c (j ∷ signers)) (coord c j) ≡ zero_s
  vanishing-zero j signers =
      vanishing-eval c j signers (coord c j)
      ∙ ap (λ t. mul t (eval c (vanishing c signers) (coord c j))) (Laws.sub_self c (coord c j))
      ∙ Laws.zero-mul c _

  pub vanishing-zeros :
      (signers : List ℕ) → All (λ i. eval c (vanishing c signers) (coord c i) ≡ zero_s) signers
  vanishing-zeros [] = tt
  vanishing-zeros (j ∷ signers) = (
    vanishing-zero j signers,
    All-map signers
        (λ i h. vanishing-eval c j signers (coord c i) ∙ ap (mul _) h ∙ Laws.mul-zero c _)
        (vanishing-zeros signers),
  )

  pub vanishing-denom :
      (a : ℕ) (signers : List ℕ)
      → All (Apart c a) signers
      → eval c (vanishing c signers) (coord c a) ≡ denom c a signers
  vanishing-denom a [] h =
      unfold vanishing eval denom in (ap (add one_s) (Laws.mul-zero c _) ∙ Laws.add-zero c one_s)
  vanishing-denom a (j ∷ signers) (h, hs) =
      vanishing-eval c j signers (coord c a)
      ∙ ap (mul _) (vanishing-denom a signers hs)
      ∙ sym (denom-cons j a signers ((λ e. h.0 (sym e)), λ e. h.1 (sym e)))

  pub vanishing-numer :
      (a : ℕ) (signers : List ℕ)
      → All (Apart c a) signers
      → eval c (vanishing c signers) zero_s ≡ numer c a signers
  vanishing-numer a [] h =
      unfold vanishing eval numer in (ap (add one_s) (Laws.zero-mul c _) ∙ Laws.add-zero c one_s)
  vanishing-numer a (j ∷ signers) (h, hs) =
      vanishing-eval c j signers zero_s
      ∙ ap₂ mul (sym (Laws.add-zero c _) ∙ Laws.sub-add_cancel c (coord c j) zero_s)
          (vanishing-numer a signers hs)
      ∙ sym (numer-cons j a signers ((λ e. h.0 (sym e)), λ e. h.1 (sym e)))
