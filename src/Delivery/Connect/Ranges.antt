-- ===== src/Delivery/Connect/Ranges.antt =====
-- Lists made by `replicate` and over ranges of numbers.
use govis.Prelude.{
  ℕ, zero, suc, ◌+◌, ◌≤◌, ◌<◌, ◌==◌, ==_iff, Bool-cases, some, List, [], ◌∷◌, ◌++◌, length,
  replicate, get_elem?, All, map, range_from, inl, inr, ◌≡◌, refl, sym, ap, arith,
}
use mathlib.Core.Path.{subst}

pub length-replicate : {A : Type 0} (n : ℕ) (a : A) → length (replicate n a) ≡ n
length-replicate zero a = refl
length-replicate (suc n) a = ap suc (length-replicate n a)

pub All-map_range :
    {A : Type 0} (P : A → Type 0) (f : ℕ → A) (a m : ℕ)
    → ((k : ℕ) → a ≤ k → k < a + m → P (f k))
    → All P (map f (range_from a m))
All-map_range P f a zero h = tt
All-map_range P f a (suc m) h = (
  h a (omega arith) (omega arith),
  All-map_range P f (suc a) m (λ k l u. h k (omega (arith, l)) (omega (arith, u))),
)

-- What a range's images all have, each of them has.
pub at_range :
    {A : Type 0} (P : A → Type 0) (f : ℕ → A) (a m : ℕ) (rest : List A)
    → All P (map f (range_from a m) ++ rest)
    → (k : ℕ) → a ≤ k
    → k < a + m
    → P (f k)
at_range P f a zero rest h k l u = absurd (omega (arith, l, u))
at_range P f a (suc m) rest (h, hs) k l u = elim (Bool-cases (k == a)) [
  | inl e ↦ subst (λ i. P (f i)) (sym ((==_iff k a).0 e)) h
  | inr e ↦ at_range P f (suc a) m rest hs k (ground (arith, e, l)) (omega (arith, u))
]

pub after_append : {A : Type 0} (P : A → Type 0) (xs ys : List A) → All P (xs ++ ys) → All P ys
after_append P [] ys h = h
after_append P (x ∷ xs) ys (h, hs) = after_append P xs ys hs

pub get_elem?-replicate :
    {A : Type 0} (n j : ℕ) (a : A) → j < n → get_elem? (replicate n a) j ≡ some a
get_elem?-replicate zero j a h = elim h [ ]
get_elem?-replicate (suc n) zero a h = refl
get_elem?-replicate (suc n) (suc j) a h = get_elem?-replicate n j a (omega (arith, h))
