-- ===== src/Vss/Shares.antt =====
-- Feldman shares, in the terms of the code.
use govis.Prelude.{
  ℕ, zero, suc, ◌+◌, ◌<◌, ◌≡◌, refl, sym, ap, ◌∙◌, leb, if◌then◌else◌, none, some, List, ◌∷◌, map,
  arith, range_from, get_elem?,
}
use govis.Curve.{Curve}
use govis.Vss.{
  share_loop, share_point, coefficients, generate_shares_internal, evaluate_polynomial, next_u16,
}
use govis.Vss.Polynomial.{eval, share_loop-eval, share_point_loop-eval}

pub next_u16_small : (i : ℕ) → i < 65535 → next_u16 i ≡ suc i
next_u16_small i h = omega arith

module _ (c : Curve) where
  open c use {
    Scalar, Point, zero_s, one_s, add, mul, from_nat, generator, identity, padd, scale, one-mul,
    zero-add, scale-zero, identity-padd, add_assoc,
  }

  -- What the loop of `evaluate_polynomial` computes for one party.
  pub share-eval :
      (coeffs : List Scalar) (x : Scalar) → share_loop c coeffs x zero_s one_s ≡ eval c coeffs x
  share-eval coeffs x =
      share_loop-eval c coeffs x zero_s one_s ∙ zero-add _ ∙ one-mul (eval c coeffs x)

  pub share_point-eval :
      (coeffs : List Scalar) (j : ℕ)
      → share_point c (map (scale generator) coeffs) j
        ≡ scale generator (eval c coeffs (from_nat (next_u16 j)))
  unfolding share_point
  share_point-eval coeffs j =
      share_point_loop-eval c coeffs (from_nat (next_u16 j)) (scale generator zero_s) one_s
      ∙ rw (scale-zero generator, identity-padd, one-mul)

  get_elem?-map_range :
      (f : ℕ → Scalar) (a n j : ℕ) → j < n → get_elem? (map f (range_from a n)) j ≡ some (f (a + j))
  get_elem?-map_range f a zero j h = elim h [ ]
  get_elem?-map_range f a (suc n) zero h = ap (λ t. some (f t)) {x = a} {y = a + 0} (omega arith)
  get_elem?-map_range f a (suc n) (suc j) h =
      get_elem?-map_range f (suc a) n j (omega arith)
      ∙ ap (λ t. some (f t)) {x = suc a + j} {y = a + suc j} (omega arith)

  -- The share that `evaluate_polynomial` makes for party `j` is the value of the polynomial at j + 1.
  pub evaluate_polynomial-share :
      (intercept : Scalar) (t n : ℕ) (draw : ℕ → Scalar) (j : ℕ)
      → j < n
      → get_elem? ((evaluate_polynomial c intercept t n draw).1) j
        ≡ some (eval c (coefficients c intercept t draw) (from_nat (next_u16 j)))
  unfolding evaluate_polynomial
  evaluate_polynomial-share intercept t n draw j h =
      get_elem?-map_range (λ i. share_loop c coeffs (from_nat (next_u16 i)) zero_s one_s) 0 n j h
      ∙ ap some (
          ap (λ i. share_loop c coeffs (from_nat (next_u16 i)) zero_s one_s) {x = 0 + j} {y = j}
            (omega arith)
          ∙ share-eval coeffs (from_nat (next_u16 j)))
    where
      coeffs : List Scalar
      coeffs = coefficients c intercept t draw

  -- Every share that `evaluate_polynomial` makes passes the check that its receiver `j` makes against
  -- the commitments: the share times the generator is the point that the receiver computes.
  pub evaluate_polynomial-verifies :
      (intercept : Scalar) (t n : ℕ) (draw : ℕ → Scalar) (j : ℕ)
      → j < n
      → (share : Scalar) × (get_elem? ((evaluate_polynomial c intercept t n draw).1) j ≡ some share)
        × (scale generator share ≡ share_point c ((evaluate_polynomial c intercept t n draw).0) j)
  evaluate_polynomial-verifies intercept t n draw j h = (
    eval c (coefficients c intercept t draw) (from_nat (next_u16 j)),
    evaluate_polynomial-share intercept t n draw j h,
    unfold evaluate_polynomial in sym (share_point-eval (coefficients c intercept t draw) j),
  )

  map-range_shift :
      (f g : ℕ → Scalar) (a b n : ℕ)
      → ((i : ℕ) → i < n → f (a + i) ≡ g (b + i))
      → map f (range_from a n) ≡ map g (range_from b n)
  map-range_shift f g a b zero h = refl
  map-range_shift f g a b (suc n) h =
      cons_congr
        (ap f {x = a} {y = a + 0} (omega arith)
          ∙ h 0 (omega arith)
          ∙ ap g {x = b + 0} {y = b} (omega arith))
        (map-range_shift f g (suc a) (suc b) n (λ i hi.
          ap f {x = suc a + i} {y = a + suc i} (omega arith)
          ∙ h (suc i) (omega arith)
          ∙ ap g {x = b + suc i} {y = suc b + i} (omega arith)))
    where
      cons_congr : {x y : Scalar} {xs ys : List Scalar} → x ≡ y → xs ≡ ys → (x ∷ xs) ≡ (y ∷ ys)
      cons_congr p q = cc

  -- The two sharing routines of the program agree: within the threshold bound of the `assert`, and for
  -- fewer than 65536 parties, `generate_shares_internal` returns the commitments and the shares of
  -- `evaluate_polynomial`; beyond the bound it panics.
  pub generate_shares_internal-evaluate_polynomial :
      (intercept : Scalar) (t n : ℕ) (draw : ℕ → Scalar)
      → n < 65536
      → generate_shares_internal c intercept t n draw ≡ (
          if leb t n
          then some (record {
            commitments = (evaluate_polynomial c intercept t n draw).0;
            secret_shares = (evaluate_polynomial c intercept t n draw).1;
          })
          else none)
  unfolding generate_shares_internal evaluate_polynomial
  generate_shares_internal-evaluate_polynomial intercept t n draw h =
      ap
        (λ (xs : List Scalar).
          if leb t n
          then some (record {
            commitments = map (scale generator) (coefficients c intercept t draw);
            secret_shares = xs;
          })
          else none)
        (map-range_shift
          (λ i. share_loop c (coefficients c intercept t draw) (from_nat i) zero_s one_s)
          (λ j. share_loop c (coefficients c intercept t draw) (from_nat (next_u16 j)) zero_s one_s)
          1 0 n
          (λ i hi.
            ap (λ k. share_loop c (coefficients c intercept t draw) (from_nat k) zero_s one_s)
              {x = 1 + i} {y = next_u16 (0 + i)} (omega arith)))
