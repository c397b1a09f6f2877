-- ===== src/Zk/Powers.antt =====
-- n-th powers modulo n²: they depend on the base modulo n only.
use govis.Prelude.{ℕ, zero, suc, ◌+◌, ◌*◌, ◌/◌, ◌%◌, ◌^◌, ◌<◌, ◌≡◌, refl, sym, ap, ◌∙◌, arith}
use govis.Prelude.Modular.{
  Congruent, mul_congr, mod-mul-mod, mul-mod-mod, pow-mul, mul-pow, pow_congr, pow-add,
}
use govis.Prelude.{◌≤◌}
use govis.Paillier.Arithmetic.{reduced_product}
use native.Mathlib.Nat.{
  pow-le-pow_right, mul-le-mul, mul_comm, add-mul-mod_self_left, mod-add-div, pow-zero, pow-suc,
  mod-mod,
}

-- The first two terms of the binomial.
binomial :
    (n r q k : ℕ) → Congruent (n * n) ((r + n * q) ^ suc k) (r ^ suc k + suc k * (n * (q * r ^ k)))
binomial n r q zero =
    ap (λ t. t % (n * n))
      (pow-suc (r + n * q) 0 ∙ rw (pow-suc r 0, pow-zero (r + n * q), pow-zero r) (omega arith))
binomial n r q (suc k) =
    ap (λ t. t % (n * n)) (pow-suc (r + n * q) (suc k))
    ∙ mul_congr (n * n) _ (r ^ suc k + suc k * (n * (q * r ^ k))) (r + n * q) (r + n * q)
        (binomial n r q k) refl
    ∙ ap (λ t. t % (n * n)) {x = (r ^ suc k + suc k * (n * (q * r ^ k))) * (r + n * q)}
        {y = r ^ suc (suc k)
          + suc (suc k) * (n * (q * r ^ suc k))
          + n * n * (suc k * (q * (q * r ^ k)))}
        (rw (pow-suc r (suc k), pow-suc r k) (omega arith))
    ∙ add-mul-mod_self_left _ (n * n) (suc k * (q * (q * r ^ k)))

-- A base reduced modulo n has the same n-th power modulo n².
pub nth_power_mod : (n a : ℕ) → Congruent (n * n) ((a % n) ^ n) (a ^ n)
nth_power_mod zero a = ap (λ t. t % 0) (pow-zero (a % 0) ∙ sym (pow-zero a))
nth_power_mod (suc k) a = sym (
    ap (λ t. t ^ suc k % (suc k * suc k)) (sym (mod-add-div a (suc k)))
    ∙ binomial (suc k) (a % suc k) (a / suc k) k
    ∙ ap (λ t. t % (suc k * suc k))
        {x = (a % suc k) ^ suc k + suc k * (suc k * (a / suc k * (a % suc k) ^ k))}
        {y = (a % suc k) ^ suc k + suc k * suc k * (a / suc k * (a % suc k) ^ k)} (omega arith)
    ∙ add-mul-mod_self_left _ (suc k * suc k) (a / suc k * (a % suc k) ^ k))

-- The response s = gamma (rho^e mod n) mod n, to the n-th power.
pub response_power :
    (n gamma rho e : ℕ)
    → Congruent (n * n) ((gamma * (rho ^ e % n) % n) ^ n) (gamma ^ n * (rho ^ n) ^ e)
response_power n gamma rho e =
    ap (λ t. t ^ n % (n * n)) (mul-mod-mod gamma (rho ^ e) n)
    ∙ nth_power_mod n (gamma * rho ^ e)
    ∙ ap (λ t. t % (n * n))
        (mul-pow gamma (rho ^ e) n
          ∙ ap (λ t. gamma ^ n * t)
              (sym (pow-mul rho e n)
                ∙ ap (λ t. rho ^ t) {x = e * n} {y = n * e} (omega arith)
                ∙ pow-mul rho n e))

-- The equation that each verifier checks, for commitments and ciphertexts of the form
-- (x mod n²) (rho^n mod n²) mod n²: it holds when x y^e and z agree modulo n².
pub sigma_equation :
    (n x y z gamma rho e : ℕ)
    → Congruent (n * n) (x * y ^ e) z
    → (x % (n * n) * (gamma ^ n % (n * n)) % (n * n))
        * ((y % (n * n) * (rho ^ n % (n * n)) % (n * n)) ^ e % (n * n))
        % (n * n)
      ≡ z % (n * n) * ((gamma * (rho ^ e % n) % n) ^ n % (n * n)) % (n * n)
sigma_equation n x y z gamma rho e h =
    mul_congr (n * n) _ (x * gamma ^ n) _ ((y * rho ^ n) ^ e)
      (reduced_product x (gamma ^ n) (n * n))
      (mod-mod _ (n * n)
        ∙ pow_congr (n * n) e _ (y * rho ^ n) (reduced_product y (rho ^ n) (n * n)))
    ∙ ap (λ t. t % (n * n))
        (ap (λ t. x * gamma ^ n * t) (mul-pow y (rho ^ n) e)
          ∙ regroup x (gamma ^ n) (y ^ e) ((rho ^ n) ^ e))
    ∙ mul_congr (n * n) (x * y ^ e) z (gamma ^ n * (rho ^ n) ^ e) ((gamma * (rho ^ e % n) % n) ^ n)
        h (sym (response_power n gamma rho e))
    ∙ sym (mod-mul-mod z s_n_reduced (n * n) ∙ mul-mod-mod z s_n (n * n))
  where
    s_n : ℕ
    s_n = (gamma * (rho ^ e % n) % n) ^ n

    s_n_reduced : ℕ
    s_n_reduced = s_n % (n * n)

    regroup : (a b d f : ℕ) → a * b * (d * f) ≡ a * d * (b * f)
    regroup a b d f = omega arith

-- The masked response fits the bound of the verifiers.
pub response_bound :
    (ell b alpha e m : ℕ)
    → alpha < 2 ^ (ell + 256 + b)
    → e < 2 ^ 256
    → m < 2 ^ ell
    → alpha + e * m < 2 ^ (ell + 256 + b + 1)
response_bound ell b alpha e m ha he hm =
    let top : 2 ^ (ell + 256 + b + 1) ≡ 2 ^ (ell + 256 + b) + 2 ^ (ell + 256 + b) =
      pow-add 2 (ell + 256 + b) 1 ∙ double (2 ^ (ell + 256 + b)) in
    let wide : 2 ^ (ell + 256) ≤ 2 ^ (ell + 256 + b) =
      pow-le-pow_right (omega arith) (omega arith) in
    let product : e * m ≤ 2 ^ (ell + 256) =
      rw (pow-add 2 ell 256, mul_comm (2 ^ ell) (2 ^ 256))
        (mul-le-mul (omega arith) (omega arith)) in
    omega arith
  where
    double : (a : ℕ) → a * 2 ^ 1 ≡ a + a
    double a = omega arith
