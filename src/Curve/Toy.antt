-- ===== src/Curve/Toy.antt =====
-- A concrete curve on which the theorems are tried out: the field of five elements, and its additive
-- group as the points.
use govis.Prelude.{
  ℕ, suc, ◌%◌, ◌≡◌, ◌≢◌, refl, ◌==◌, if◌then◌else◌, Option, none, some, List, [], ◌∷◌, ◌++◌,
  replicate, length, Bool, true, false, arith, sym,
}
use govis.Curve.{Curve, be_value}

pub data F5 : Type 0 where
  n0 n1 n2 n3 n4 : F5

unfoldable pub F5-discrete : Discrete F5
F5-discrete = hlevel

abbrev pub val : F5 → ℕ
val n0 = 0
val n1 = 1
val n2 = 2
val n3 = 3
val n4 = 4

abbrev pub next : F5 → F5
next n0 = n1
next n1 = n2
next n2 = n3
next n3 = n4
next n4 = n0

abbrev pub of_nat : ℕ → F5
of_nat n =
    let r = n % 5 in
    if r == 0 then n0 else if r == 1 then n1 else if r == 2 then n2 else if r == 3 then n3 else n4

abbrev pub add5 : F5 → F5 → F5
add5 n0 b = b
add5 n1 b = next b
add5 n2 b = next (next b)
add5 n3 b = next (next (next b))
add5 n4 b = next (next (next (next b)))

abbrev pub mul5 : F5 → F5 → F5
mul5 n0 b = n0
mul5 n1 b = b
mul5 n2 b = add5 b b
mul5 n3 b = add5 b (add5 b b)
mul5 n4 b = add5 (add5 b b) (add5 b b)

abbrev pub neg5 : F5 → F5
neg5 n0 = n0
neg5 n1 = n4
neg5 n2 = n3
neg5 n3 = n2
neg5 n4 = n1

abbrev pub invert5 : F5 → Option F5
invert5 n0 = none
invert5 n1 = some n1
invert5 n2 = some n3
invert5 n3 = some n2
invert5 n4 = some n4

abbrev pub bytes5 : F5 → List ℕ
bytes5 a = replicate 31 0 ++ (val a ∷ [])

-- A point and its negative share the x-coordinate.
abbrev pub x5 : F5 → F5
x5 n0 = n0
x5 n1 = n1
x5 n2 = n2
x5 n3 = n2
x5 n4 = n1

-- The points' encodings: a tag and the point, or a tag, the x-coordinate and the point.
abbrev pub point_bytes5 : Bool → F5 → List ℕ
point_bytes5 true p = 2 ∷ bytes5 p
point_bytes5 false p = 4 ∷ (bytes5 (x5 p) ++ bytes5 p)

abbrev pub from_point_bytes5 : List ℕ → Option F5
from_point_bytes5 bs = some (of_nat (be_value bs % 256))

abbrev pub is_odd5 : F5 → Option Bool
is_odd5 n0 = none
is_odd5 p = some (val p % 2 == 1)

pub is_odd5-some : (p : F5) → p ≢ n0 → (b : Bool) × (is_odd5 p ≡ some b)
is_odd5-some n0 h = absurd (h refl)
is_odd5-some n1 h = (true, refl)
is_odd5-some n2 h = (false, refl)
is_odd5-some n3 h = (true, refl)
is_odd5-some n4 h = (false, refl)

pub add5_assoc : (a b c : F5) → add5 (add5 a b) c ≡ add5 a (add5 b c)
add5_assoc a b c = ground arith

pub mul5_assoc : (a b c : F5) → mul5 (mul5 a b) c ≡ mul5 a (mul5 b c)
mul5_assoc a b c = ground arith

pub mul5-add5 : (a b c : F5) → mul5 a (add5 b c) ≡ add5 (mul5 a b) (mul5 a c)
mul5-add5 a b c = ground arith

pub add5-mul5 : (a b c : F5) → mul5 (add5 a b) c ≡ add5 (mul5 a c) (mul5 b c)
add5-mul5 a b c = ground arith

pub add5_comm : (a b : F5) → add5 a b ≡ add5 b a
add5_comm a b = ground arith

pub mul5_comm : (a b : F5) → mul5 a b ≡ mul5 b a
mul5_comm a b = ground arith

pub zero-add5 : (a : F5) → add5 n0 a ≡ a
zero-add5 n0 = refl
zero-add5 _ = refl

pub one-mul5 : (a : F5) → mul5 n1 a ≡ a
one-mul5 n0 = refl
one-mul5 _ = refl

pub mul5-one : (a : F5) → mul5 a n1 ≡ a
mul5-one n0 = refl
mul5-one _ = refl

pub mul5-zero : (a : F5) → mul5 a n0 ≡ n0
mul5-zero n0 = refl
mul5-zero _ = refl

pub add5-neg5 : (a : F5) → add5 a (neg5 a) ≡ n0
add5-neg5 n0 = refl
add5-neg5 _ = refl

pub invert5-some : (a : F5) → a ≢ n0 → (b : F5) × (invert5 a ≡ some b)
invert5-some n0 h = absurd (h refl)
invert5-some n1 h = (n1, refl)
invert5-some n2 h = (n3, refl)
invert5-some n3 h = (n2, refl)
invert5-some n4 h = (n4, refl)

pub mul5-invert5 : (a b : F5) → invert5 a ≡ some b → mul5 a b ≡ n1
mul5-invert5 a b h = ground arith

pub n1-ne-n0 : n1 ≢ n0
n1-ne-n0 e = cc

pub of_nat-suc : (n : ℕ) → of_nat (suc n) ≡ add5 n1 (of_nat n)
of_nat-suc n = ground arith

pub of_nat-bytes5 : (a : F5) → of_nat (be_value (bytes5 a)) ≡ a
of_nat-bytes5 n0 = refl
of_nat-bytes5 _ = refl

pub length-bytes5 : (a : F5) → length (bytes5 a) ≡ 32
length-bytes5 n0 = refl
length-bytes5 _ = refl

pub from_point-point_bytes5 : (p : F5) → from_point_bytes5 (point_bytes5 true p) ≡ some p
from_point-point_bytes5 n0 = refl
from_point-point_bytes5 _ = refl

abbrev pub toy : Curve
toy = record {
  Scalar = F5;
  Point = F5;
  scalar_eq = F5-discrete;
  point_eq = F5-discrete;
  zero_s = n0;
  one_s = n1;
  add = add5;
  sub = λ a b. add5 a (neg5 b);
  mul = mul5;
  neg = neg5;
  invert = invert5;
  from_nat = of_nat;
  to_be_bytes = bytes5;
  from_be_bytes_mod_order = λ bs. of_nat (be_value bs);
  generator = n1;
  identity = n0;
  padd = add5;
  scale = mul5;
  point_bytes = point_bytes5;
  point_from_bytes = from_point_bytes5;
  y_is_odd = is_odd5;
  add_assoc = add5_assoc;
  add_comm = add5_comm;
  zero-add = zero-add5;
  add-neg = add5-neg5;
  sub_def = λ a b. refl;
  mul_assoc = mul5_assoc;
  mul_comm = mul5_comm;
  one-mul = one-mul5;
  mul-add = mul5-add5;
  invert-zero = refl;
  invert_some = invert5-some;
  mul-invert = mul5-invert5;
  one-ne-zero = n1-ne-n0;
  from_nat-zero = refl;
  from_nat-suc = of_nat-suc;
  from_be_bytes-be_value = λ bs. refl;
  from-to_be_bytes = of_nat-bytes5;
  length-to_be_bytes = length-bytes5;
  padd_assoc = add5_assoc;
  padd_comm = add5_comm;
  identity-padd = zero-add5;
  scale-zero = mul5-zero;
  scale-one = mul5-one;
  scale-add = mul5-add5;
  scale-mul = λ p a b. sym (mul5_assoc p a b);
  scale-padd = add5-mul5;
  point_from-point_bytes = from_point-point_bytes5;
  y_is_odd_some = is_odd5-some;
}
