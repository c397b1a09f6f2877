-- ===== src/Ecdsa/Recovery.antt =====
-- The recovery id of src/lindell/sign.rs, and that of src/cggmp21/sign.rs.
use govis.Prelude.{
  ℕ, zero, suc, ◌<◌, ◌%◌, ◌≡◌, refl, sym, ap, ◌∙◌, arith, List, [], ◌∷◌, ◌++◌, length, get_elem?,
  false,
}
use govis.Curve.{Curve}
use govis.Ecdsa.{recovery_id}
use mathlib.Core.Option

get_elem?-append :
    (xs ys : List ℕ) (i : ℕ) → i < length xs → get_elem? (xs ++ ys) i ≡ get_elem? xs i
get_elem?-append [] ys i h = elim h [ ]
get_elem?-append (x ∷ xs) ys zero h = refl
get_elem?-append (x ∷ xs) ys (suc i) h = get_elem?-append xs ys i (omega arith)

module _ (c : Curve) where
  open c use {Point, point_bytes}

  -- Two points whose uncompressed encodings have the same tag and the same 32 bytes of x-coordinate have
  -- the same `recovery_id`, whatever their y-coordinates: it does not tell a point from its negative.
  pub recovery_id-same_x :
      (p q : Point) (tag : ℕ) (x y y' : List ℕ)
      → length x ≡ 32
      → point_bytes false p ≡ tag ∷ (x ++ y)
      → point_bytes false q ≡ tag ∷ (x ++ y')
      → recovery_id c p ≡ recovery_id c q
  unfolding recovery_id
  recovery_id-same_x p q tag x y y' h hp hq =
      ap (λ bs. Option.map (λ b. b % 2) (get_elem? bs 32)) hp
      ∙ ap (Option.map (λ b. b % 2)) (
          get_elem?-append x y 31 (omega (arith, h))
          ∙ sym (get_elem?-append x y' 31 (omega (arith, h))))
      ∙ ap (λ bs. Option.map (λ b. b % 2) (get_elem? bs 32)) (sym hq)
