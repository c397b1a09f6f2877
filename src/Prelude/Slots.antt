-- ===== src/Prelude/Slots.antt =====
-- Tables of slots that are filled one by one, by `v[i] = x`.
use govis.Prelude.Tests.{◌==◌}
use govis.Prelude.Lists.{length, get_elem?}
use Prim.Native.Nat.{ℕ, zero, suc, ◌<◌}
use mathlib.Core.Path.{◌≡◌, refl, ap}
use mathlib.Core.Bool.{false}
use mathlib.Core.List.{List, [], ◌∷◌, ◌++◌}
use mathlib.Core.Option.{Option, none, some}
use mathlib.Core.Option
use native.Mathlib.Omega.{arith}

-- `list[i] = a`: `none` is the panic of an index out of range.
unfoldable pub set_elem? : {A : Type 0} → ℕ → A → List A → Option (List A)
set_elem? i a [] = none
set_elem? zero a (x ∷ xs) = some (a ∷ xs)
set_elem? (suc i) a (x ∷ xs) = Option.map (λ ys. x ∷ ys) (set_elem? i a xs)

pub set_elem?-append :
    {A : Type 0} (xs ys : List A) (a y : A)
    → set_elem? (length xs) a (xs ++ (y ∷ ys)) ≡ some (xs ++ (a ∷ ys))
unfolding set_elem?
set_elem?-append [] ys a y = refl
set_elem?-append (x ∷ xs) ys a y = rw (set_elem?-append xs ys a y) refl

-- An index within the table does not panic, and sets that slot only.
pub set_elem?-cases :
    {A : Type 0} (i : ℕ) (a : A) (xs : List A)
    → i < length xs
    → (ys : List A) × (set_elem? i a xs ≡ some ys)
      × (length ys ≡ length xs)
      × (get_elem? ys i ≡ some a)
      × ((j : ℕ) → (j == i) ≡ false → get_elem? ys j ≡ get_elem? xs j)
unfolding set_elem?
set_elem?-cases i a [] h = elim h [ ]
set_elem?-cases zero a (x ∷ xs) h = (a ∷ xs, refl, refl, refl, λ j e. others j e)
  where
    others : (j : ℕ) → (j == 0) ≡ false → get_elem? (a ∷ xs) j ≡ get_elem? (x ∷ xs) j
    others zero e = absurd (cc e)
    others (suc j) e = refl
set_elem?-cases {A} (suc i) a (x ∷ xs) h =
    let (ys, e, same, at, others) = set_elem?-cases i a xs (omega (arith, h)) in
    (x ∷ ys, rw e refl, ap suc same, at, λ j e. rest ys others j e)
  where
    rest :
        (ys : List A)
        → ((j : ℕ) → (j == i) ≡ false → get_elem? ys j ≡ get_elem? xs j)
        → (j : ℕ) → (j == suc i) ≡ false
        → get_elem? (x ∷ ys) j ≡ get_elem? (x ∷ xs) j
    rest ys others zero e = refl
    rest ys others (suc j) e = others j (ground (arith, e))
