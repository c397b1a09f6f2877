-- ===== src/Curve.antt =====
-- The elliptic-curve library that the program calls (`generic_ec` over secp256k1), as an interface:
-- scalars, points, their encodings, and the laws of the documentation that the theorems rely on.
pub mod Laws
pub mod Toy
use govis.Prelude.{
  ℕ, zero, suc, ◌+◌, ◌*◌, ◌%◌, ◌<◌, ◌≡◌, ◌≢◌, Option, none, some, List, [], ◌∷◌, Bool, length,
}

-- The number that a big-endian byte string stands for.
abbrev pub be_value_from : ℕ → List ℕ → ℕ
be_value_from acc [] = acc
be_value_from acc (b ∷ bs) = be_value_from (acc * 256 + b) bs

abbrev pub be_value : List ℕ → ℕ
be_value = be_value_from 0

pub record Curve : Type 1 where
  pub Scalar : Type 0
  pub Point : Type 0
  pub scalar_eq : Discrete Scalar
  pub point_eq : Discrete Point
  pub zero_s : Scalar
  pub one_s : Scalar
  pub add : Scalar → Scalar → Scalar
  pub sub : Scalar → Scalar → Scalar
  pub mul : Scalar → Scalar → Scalar
  pub neg : Scalar → Scalar
  -- `Scalar::invert`.
  pub invert : Scalar → Option Scalar
  -- `Scalar::from` of an unsigned integer.
  pub from_nat : ℕ → Scalar
  -- `Scalar::to_be_bytes`, and `Scalar::from_be_bytes_mod_order`.
  pub to_be_bytes : Scalar → List ℕ
  pub from_be_bytes_mod_order : List ℕ → Scalar
  pub generator : Point
  pub identity : Point
  pub padd : Point → Point → Point
  -- `point * scalar`.
  pub scale : Point → Scalar → Point
  -- `Point::to_bytes(compressed)`, and `Point::from_bytes`.
  pub point_bytes : Bool → Point → List ℕ
  pub point_from_bytes : List ℕ → Option Point
  -- `HasAffineXAndParity::x_and_parity`: whether y is odd; `none` at the identity.
  pub y_is_odd : Point → Option Bool
  -- The scalars are a field.
  pub add_assoc : (a b c : Scalar) → add (add a b) c ≡ add a (add b c)
  pub add_comm : (a b : Scalar) → add a b ≡ add b a
  pub zero-add : (a : Scalar) → add zero_s a ≡ a
  pub add-neg : (a : Scalar) → add a (neg a) ≡ zero_s
  pub sub_def : (a b : Scalar) → sub a b ≡ add a (neg b)
  pub mul_assoc : (a b c : Scalar) → mul (mul a b) c ≡ mul a (mul b c)
  pub mul_comm : (a b : Scalar) → mul a b ≡ mul b a
  pub one-mul : (a : Scalar) → mul one_s a ≡ a
  pub mul-add : (a b c : Scalar) → mul a (add b c) ≡ add (mul a b) (mul a c)
  pub invert-zero : invert zero_s ≡ none
  pub invert_some : (a : Scalar) → a ≢ zero_s → (b : Scalar) × (invert a ≡ some b)
  pub mul-invert : (a b : Scalar) → invert a ≡ some b → mul a b ≡ one_s
  pub one-ne-zero : one_s ≢ zero_s
  -- Numbers are read modulo the order, and a scalar's bytes are its number.
  pub from_nat-zero : from_nat 0 ≡ zero_s
  pub from_nat-suc : (n : ℕ) → from_nat (suc n) ≡ add one_s (from_nat n)
  pub from_be_bytes-be_value : (bs : List ℕ) → from_be_bytes_mod_order bs ≡ from_nat (be_value bs)
  pub from-to_be_bytes : (s : Scalar) → from_be_bytes_mod_order (to_be_bytes s) ≡ s
  pub length-to_be_bytes : (s : Scalar) → length (to_be_bytes s) ≡ 32
  -- The points are a module over the scalars.
  pub padd_assoc : (p q r : Point) → padd (padd p q) r ≡ padd p (padd q r)
  pub padd_comm : (p q : Point) → padd p q ≡ padd q p
  pub identity-padd : (p : Point) → padd identity p ≡ p
  pub scale-zero : (p : Point) → scale p zero_s ≡ identity
  pub scale-one : (p : Point) → scale p one_s ≡ p
  pub scale-add : (p : Point) (a b : Scalar) → scale p (add a b) ≡ padd (scale p a) (scale p b)
  pub scale-mul : (p : Point) (a b : Scalar) → scale p (mul a b) ≡ scale (scale p a) b
  pub scale-padd : (p q : Point) (a : Scalar) → scale (padd p q) a ≡ padd (scale p a) (scale q a)
  pub point_from-point_bytes : (p : Point) → point_from_bytes (point_bytes Bool.true p) ≡ some p
  pub y_is_odd_some : (p : Point) → p ≢ identity → (b : Bool) × (y_is_odd p ≡ some b)
