-- ===== src/Vss/Refresh.antt =====
-- The refresh of shares: what `update_private_share` makes of the offsets.
use govis.Prelude.{
  ℕ, zero, suc, ◌-◌, ◌≤◌, ◌<◌, ◌≡◌, refl, sym, ap, ◌∙◌, some, List, [], ◌∷◌, map, arith, length,
  length-map, range_from, All, All-map,
}
use govis.Curve.{Curve}
use govis.Curve.Laws.{add-zero, zero-mul}
use govis.Vss.{coefficients, update_private_share, lagrange_coeff}
use govis.Vss.Polynomial.{eval, add_poly, eval-add_poly}
use govis.Vss.Lagrange.{coord, Distinct}
use govis.Vss.Lagrange.Interpolation.{sum_over, sum_over_congr}
use govis.Vss.Lagrange.Secret.{lagrange_coeff-secret}

module _ (c : Curve) where
  open c use {Scalar, zero_s, add, mul, zero-add}

  -- The sum of a polynomial and a list of others.
  unfoldable pub sum_poly : List Scalar → List (List Scalar) → List Scalar
  sum_poly f [] = f
  sum_poly f (g ∷ gs) = sum_poly (add_poly c f g) gs

  pub update_private_share-eval :
      (f : List Scalar) (gs : List (List Scalar)) (x : Scalar)
      → update_private_share c (eval c f x) (map (λ g. eval c g x) gs) ≡ eval c (sum_poly f gs) x
  unfolding update_private_share sum_poly
  update_private_share-eval f [] x = refl
  update_private_share-eval f (g ∷ gs) x =
      ap (λ s. update_private_share c s (map (λ h. eval c h x) gs)) (sym (eval-add_poly c f g x))
      ∙ update_private_share-eval (add_poly c f g) gs x

  eval-refresh_zero :
      (t : ℕ) (draw : ℕ → Scalar) → eval c (coefficients c zero_s t draw) zero_s ≡ zero_s
  unfolding eval coefficients
  eval-refresh_zero t draw = zero-add _ ∙ zero-mul c _

  pub sum_poly-secret :
      (f : List Scalar) (t : ℕ) (draws : List (ℕ → Scalar))
      → eval c (sum_poly f (map (coefficients c zero_s t) draws)) zero_s ≡ eval c f zero_s
  unfolding sum_poly
  sum_poly-secret f t [] = refl
  sum_poly-secret f t (draw ∷ draws) =
      sum_poly-secret (add_poly c f (coefficients c zero_s t draw)) t draws
      ∙ eval-add_poly c f (coefficients c zero_s t draw) zero_s
      ∙ ap (add (eval c f zero_s)) (eval-refresh_zero t draw)
      ∙ add-zero c (eval c f zero_s)

  length-add_poly :
      (f g : List Scalar) (n : ℕ) → length f ≤ n → length g ≤ n → length (add_poly c f g) ≤ n
  unfolding add_poly
  length-add_poly [] g n hf hg = hg
  length-add_poly (a ∷ f) [] n hf hg = hf
  length-add_poly (a ∷ f) (b ∷ g) zero hf hg = absurd (omega (arith, hf))
  length-add_poly (a ∷ f) (b ∷ g) (suc n) hf hg =
      omega (arith, length-add_poly f g n (omega (arith, hf)) (omega (arith, hg)))

  length-range_from : (a m : ℕ) → length (range_from a m) ≡ m
  length-range_from a zero = refl
  length-range_from a (suc m) = ap suc (length-range_from (suc a) m)

  length-sum_poly :
      (f : List Scalar) (t : ℕ) (draws : List (ℕ → Scalar)) (n : ℕ)
      → length f ≤ n
      → t ≤ n
      → 0 < n
      → length (sum_poly f (map (coefficients c zero_s t) draws)) ≤ n
  unfolding sum_poly coefficients
  length-sum_poly f t [] n hf ht hn = hf
  length-sum_poly f t (draw ∷ draws) n hf ht hn =
      length-sum_poly (add_poly c f (coefficients c zero_s t draw)) t draws n
        (length-add_poly f (coefficients c zero_s t draw) n hf (
          omega
            (arith, ht, hn, length-map draw (range_from 0 (t - 1)), length-range_from 0 (t - 1))))
        ht hn

  -- The new share of the party with coordinate `x`, from its old one and the offsets that refresh
  -- polynomials (intercept zero) give it.
  abbrev pub new_share : List Scalar → ℕ → List (ℕ → Scalar) → Scalar → Scalar
  new_share f t draws x =
      update_private_share c (eval c f x)
        (map (λ draw. eval c (coefficients c zero_s t draw) x) draws)

  new_share-eval :
      (f : List Scalar) (t : ℕ) (draws : List (ℕ → Scalar)) (x : Scalar)
      → new_share f t draws x ≡ eval c (sum_poly f (map (coefficients c zero_s t) draws)) x
  new_share-eval f t draws x =
      ap (update_private_share c (eval c f x)) (map_map draws)
      ∙ update_private_share-eval f (map (coefficients c zero_s t) draws) x
    where
      map_map :
          (ds : List (ℕ → Scalar))
          → map (λ draw. eval c (coefficients c zero_s t draw) x) ds
            ≡ map (λ g. eval c g x) (map (coefficients c zero_s t) ds)
      map_map [] = refl
      map_map (d ∷ ds) = ap (λ r. eval c (coefficients c zero_s t d) x ∷ r) (map_map ds)

  -- A refresh re-shares the secret: `update_private_share` with the offsets of any number of refresh
  -- polynomials (intercept zero) gives each party the value at its coordinate of the sum of the old
  -- polynomial and all refresh polynomials. Any distinct signers, at least one and at least as many as
  -- the old polynomial has coefficients and as the threshold, reconstruct the old secret from the new
  -- shares, with the weights that `lagrange_coeff` answers.
  pub refresh_keeps_secret :
      (f : List Scalar) (t : ℕ) (draws : List (ℕ → Scalar)) (signers : List ℕ)
      → Distinct c signers
      → length f ≤ length signers
      → t ≤ length signers
      → 0 < length signers
      → ((x : Scalar)
          → new_share f t draws x ≡ eval c (sum_poly f (map (coefficients c zero_s t) draws)) x)
        × (w : ℕ → Scalar) × All (λ i. lagrange_coeff c i signers ≡ some (w i)) signers
        × (sum_over c signers (λ i. mul (w i) (new_share f t draws (coord c i))) ≡ eval c f zero_s)
  refresh_keeps_secret f t draws signers d hf ht hn =
      let (w, answers, sum) =
        lagrange_coeff-secret c signers (sum_poly f (map (coefficients c zero_s t) draws)) d
          (length-sum_poly f t draws (length signers) hf ht hn) in
      (
        new_share-eval f t draws,
        w,
        answers,
        sum_over_congr c signers _ _ (
              All-map signers
                (λ i (h : lagrange_coeff c i signers ≡ some (w i)).
                  ap (mul (w i)) (new_share-eval f t draws (coord c i)))
                answers)
            ∙ sum
            ∙ sum_poly-secret f t draws,
      )
