-- ===== src/Big.antt =====
-- The big-integer library (`num_bigint`), as an interface: what the program uses of it beyond the
-- arithmetic of integers, which Prelude/Int.antt has.
pub mod Draws
use govis.Prelude.{
  ℕ, zero, suc, ◌%◌, ◌^◌, ◌<◌, ◌≡◌, refl, ap, Option, none, some, List, [], ◌∷◌, arith,
}
use govis.Prelude.Int.{ℤ, pos, negsuc, mod_floor}
use govis.Curve.{be_value}
use govis.Prelude.Modular.{pow_congr}
use native.Mathlib.Nat.{two-pow-succ, mod-mod}

pub record Big : Type 0 where
  -- `BigInt::modpow(base, exponent, modulus)`; `none` is a panic.
  pub modpow : ℤ → ℤ → ℤ → Option ℤ
  -- `BigUint::bits`.
  pub bits : ℕ → ℕ
  -- `BigUint::to_bytes_be`.
  pub to_bytes_be : ℕ → List ℕ
  -- The power, reduced.
  pub modpow-pos : (b e m : ℕ) → 0 < m → modpow (pos b) (pos e) (pos m) ≡ some (pos (b ^ e % m))
  -- A negative exponent and a modulus of zero panic.
  pub modpow-negsuc : (b m : ℤ) (e : ℕ) → modpow b (negsuc e) m ≡ none
  pub modpow-zero : (b e : ℤ) → modpow b e (pos 0) ≡ none
  pub lt-bits : (n : ℕ) → n < 2 ^ bits n
  pub be_value-to_bytes_be : (n : ℕ) → be_value (to_bytes_be n) ≡ n

-- An instance: powers of numbers, and no more than the laws ask for.
abbrev pub modpow_ℕ : ℤ → ℤ → ℤ → Option ℤ
modpow_ℕ b (pos e) (pos zero) = none
modpow_ℕ b (pos e) (pos (suc m)) = some (pos (mod_floor b (suc m) ^ e % suc m))
modpow_ℕ b (pos e) (negsuc m) = none
modpow_ℕ b (negsuc e) m = none

pub modpow_ℕ-pos : (b e m : ℕ) → 0 < m → modpow_ℕ (pos b) (pos e) (pos m) ≡ some (pos (b ^ e % m))
modpow_ℕ-pos b e zero h = elim h [ ]
modpow_ℕ-pos b e (suc m) h =
    ap (λ t. some (pos t)) (pow_congr (suc m) e (b % suc m) b (mod-mod b (suc m)))

pub modpow_ℕ-zero : (b e : ℤ) → modpow_ℕ b e (pos 0) ≡ none
modpow_ℕ-zero b (pos e) = refl
modpow_ℕ-zero b (negsuc e) = refl

pub lt-two_pow : (n : ℕ) → n < 2 ^ n
lt-two_pow zero = omega arith
lt-two_pow (suc n) = omega (arith, lt-two_pow n, two-pow-succ n)

abbrev pub toy_big : Big
toy_big = record {
  modpow = modpow_ℕ;
  bits = λ n. n;
  to_bytes_be = λ n. n ∷ [];
  modpow-pos = modpow_ℕ-pos;
  modpow-negsuc = λ b m e. refl;
  modpow-zero = modpow_ℕ-zero;
  lt-bits = lt-two_pow;
  be_value-to_bytes_be = λ n. omega arith;
}
