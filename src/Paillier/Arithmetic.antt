-- ===== src/Paillier/Arithmetic.antt =====
-- Numbers modulo n²: the powers of 1 + a n, and the map L of the decryption.
use govis.Prelude.{ℕ, zero, suc, ◌+◌, ◌-◌, ◌*◌, ◌/◌, ◌%◌, ◌^◌, ◌≤◌, ◌<◌, ◌≡◌, refl, ap, ◌∙◌, arith}
use govis.Prelude.Modular.{Congruent, mul_congr, mod-mul-mod, mul-mod-mod, mul-pow, pow_congr}
use govis.Prelude.{some}
use govis.Prelude.Int.{pos, rem?, div?}
use native.Mathlib.Nat.{
  mul-le-mul_right, mod-mod, mul-div_cancel, mul_assoc, add-mul-mod_self_left, mod-eq_of_lt,
  mod-add-div, pow-zero, pow-suc, mul-one,
}

pub linear_mul : (n a b : ℕ) → Congruent (n * n) ((1 + a * n) * (1 + b * n)) (1 + (a + b) * n)
linear_mul n a b =
    ap (λ t. t % (n * n)) {x = (1 + a * n) * (1 + b * n)} {y = 1 + (a + b) * n + n * n * (a * b)}
      (omega arith)
    ∙ add-mul-mod_self_left (1 + (a + b) * n) (n * n) (a * b)

pub linear_pow : (n a k : ℕ) → Congruent (n * n) ((1 + a * n) ^ k) (1 + k * a * n)
linear_pow n a zero = ap (λ t. t % (n * n)) (pow-zero (1 + a * n) ∙ omega arith)
linear_pow n a (suc k) =
    ap (λ t. t % (n * n)) (pow-suc (1 + a * n) k)
    ∙ mul_congr (n * n) ((1 + a * n) ^ k) (1 + k * a * n) (1 + a * n) (1 + a * n) (linear_pow n a k)
        refl
    ∙ linear_mul n (k * a) a
    ∙ ap (λ t. (1 + t * n) % (n * n)) {x = k * a + a} {y = suc k * a} (omega arith)

-- The remainder of 1 + x n is 1 + (x mod n) n.
pub linear_mod : (n x : ℕ) → 1 < n → (1 + x * n) % (n * n) ≡ 1 + x % n * n
linear_mod n x h =
    ap (λ t. t % (n * n)) {x = 1 + x * n} {y = 1 + x % n * n + n * n * (x / n)}
      (omega (arith, ap (λ (t : ℕ). t * n) (mod-add-div x n)))
    ∙ add-mul-mod_self_left (1 + x % n * n) (n * n) (x / n)
    ∙ mod-eq_of_lt
        (let room : suc (x % n) * n ≤ n * n = mul-le-mul_right n (omega arith) in omega arith)

pub rem?-pos : (a d : ℕ) → 0 < d → rem? (pos a) d ≡ some (pos (a % d))
rem?-pos a d h = ground arith

pub div?-pos : (a d : ℕ) → 0 < d → div? (pos a) d ≡ some (pos (a / d))
div?-pos a d h = ground arith

pub reduced_product : (a b d : ℕ) → Congruent d (a % d * (b % d) % d) (a * b)
reduced_product a b d = mod-mod (a % d * (b % d)) d ∙ mod-mul-mod a (b % d) d ∙ mul-mod-mod a b d

-- (1 + n)^m rho^n, to the private exponent.
pub encrypted_pow :
    (n l m rho : ℕ)
    → Congruent (n * n) ((rho ^ n) ^ l) 1
    → Congruent (n * n) (((n + 1) ^ m * rho ^ n) ^ l) (1 + m * l * n)
encrypted_pow n l m rho unit =
    ap (λ t. t % (n * n)) (mul-pow ((n + 1) ^ m) (rho ^ n) l)
    ∙ mul_congr (n * n) (((n + 1) ^ m) ^ l) (1 + l * (m * 1) * n) ((rho ^ n) ^ l) 1 base unit
    ∙ ap (λ t. t % (n * n)) {x = (1 + l * (m * 1) * n) * 1} {y = 1 + m * l * n} (omega arith)
  where
    base : Congruent (n * n) (((n + 1) ^ m) ^ l) (1 + l * (m * 1) * n)
    base =
        pow_congr (n * n) l ((n + 1) ^ m) (1 + m * 1 * n)
          (ap (λ t. t ^ m % (n * n)) {x = n + 1} {y = 1 + 1 * n} (omega arith) ∙ linear_pow n 1 m)
        ∙ linear_pow n (m * 1) l

-- L(1 + x n mod n²) mu mod n, where lambda mu is 1 modulo n.
pub l_times_mu :
    (n l mu m : ℕ)
    → 1 < n
    → Congruent n (l * mu) 1
    → ((1 + m * l * n) % (n * n) - 1) / n * mu % n ≡ m % n
l_times_mu n l mu m h inv =
    ap (λ t. (t - 1) / n * mu % n) (linear_mod n (m * l) h)
    ∙ ap (λ t. t / n * mu % n) {x = 1 + m * l % n * n - 1} {y = m * l % n * n} (omega arith)
    ∙ ap (λ t. t * mu % n) (mul-div_cancel (m * l % n) (omega arith))
    ∙ mod-mul-mod (m * l) mu n
    ∙ ap (λ t. t % n) (mul_assoc m l mu)
    ∙ mul_congr n m m (l * mu) 1 refl inv
    ∙ ap (λ t. t % n) (mul-one m)
