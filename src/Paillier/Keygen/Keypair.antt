-- ===== src/Paillier/Keygen/Keypair.antt =====
-- The key pairs that the key generation returns, and when it returns one.
use govis.Prelude.{◌>>=◌ as ◌and_then◌}
use govis.Prelude.{
  ℕ, ◌+◌, ◌-◌, ◌*◌, ◌/◌, ◌%◌, ◌^◌, ◌≤◌, ◌<◌, ◌==◌, ==_iff, none, some, List, [], ◌∷◌, ◌++◌, Outcome,
  ok, err, some_inj, Bool-cases, inl, inr, ◌⊎◌, ◌≡◌, ◌≢◌, refl, sym, ap, ◌∙◌, arith, true, false,
  All,
}
use govis.Prelude.Int.{pos}
use govis.Prelude.Modular.{Congruent, mod-mul-mod}
use govis.Big.{Big}
use govis.Paillier.{PaillierKeypair, l_function}
use govis.Paillier.Arithmetic.{linear_pow, linear_mod, div?-pos}
use govis.Paillier.Plaintext.{IsKeypair, pos-minus_one}
use govis.Paillier.Keygen.{lcm, keypair_of, generate_keypair_ext}
use govis.Paillier.Keygen.Gcd.{lcm_multiple}
use govis.Paillier.Keygen.Inverse.{modinv_inverse}
use mathlib.Core.Path.{subst}
use native.Mathlib.Nat.{mul-div_cancel, mul-le-mul}

-- L((n + 1)^lambda mod n²) is lambda modulo n.
power_of_g : (n l : ℕ) → 1 < n → (n + 1) ^ l % (n * n) ≡ 1 + l % n * n
power_of_g n l h =
    ap (λ t. t ^ l % (n * n)) {x = n + 1} {y = 1 + 1 * n} (omega arith)
    ∙ linear_pow n 1 l
    ∙ ap (λ t. (1 + t * n) % (n * n)) {x = l * 1} {y = l} (omega arith)
    ∙ linear_mod n l h

l_function_of_g :
    (n l : ℕ) → 1 < n → l_function (pos ((n + 1) ^ l % (n * n))) n ≡ some (pos (l % n))
unfolding l_function
l_function_of_g n l h =
    rw
      (
        power_of_g n l h,
        pos-minus_one (1 + l % n * n) (omega arith),
        div?-pos (1 + l % n * n - 1) n (omega arith),
      )
      (ap (λ t. some (pos (t / n))) {x = 1 + l % n * n - 1} {y = l % n * n} (omega arith)
        ∙ ap (λ t. some (pos t)) (mul-div_cancel (l % n) (omega arith)))

module _ (big : Big) where
  open big use {modpow, modpow-pos}

  -- A key pair of the two primes, with the relations that decryption relies on.
  pub record Made (p q lambda : ℕ) (kp : PaillierKeypair) : Type 0 where
    pub key : IsKeypair kp.pk kp.sk
    pub n_eq : kp.pk.n ≡ p * q
    pub lambda_eq : kp.sk.lambda ≡ lambda

  -- The step with two numbers above one does not panic: it makes a key pair if lambda has an inverse
  -- modulo p q, and none otherwise.
  keypair_of-cases :
      (p q : ℕ)
      → 1 < p
      → 1 < q
      → (lambda : ℕ) × (lcm (p - 1) (q - 1) ≡ some lambda)
        × (((kp : PaillierKeypair) × (keypair_of big p q ≡ ok (some kp)) × Made p q lambda kp)
            ⊎ ((keypair_of big p q ≡ ok none) × ((b : ℕ) → ¬ Congruent (p * q) (lambda * b) 1)))
  unfolding keypair_of
  keypair_of-cases p q hp hq =
      let (lambda, e, multiple_p, multiple_q, product) =
        lcm_multiple (p - 1) (q - 1) (omega arith) in
      (
        lambda,
        e,
        elim (modinv_inverse (lambda % n) n large) [
          | inl (m, f, nonzero, inverse) ↦
              let test : (m + 0 == 0 + 0) ≡ false = ground (arith, nonzero) in
              inl (
                kp lambda m,
                rw
                    (
                      e,
                      modpow-pos (n + 1) lambda (n * n) square_pos,
                      l_function_of_g n lambda large,
                      f,
                      test,
                    )
                    refl,
                record {
                  key = record {
                    n_large = large;
                    n_sq_eq = refl;
                    g_eq = refl;
                    mu_inverse = sym (mod-mul-mod lambda m n) ∙ inverse;
                  };
                  n_eq = refl;
                  lambda_eq = refl;
                },
              )
          | inr (f, no_inverse) ↦ inr (
            rw (e, modpow-pos (n + 1) lambda (n * n) square_pos, l_function_of_g n lambda large, f)
                refl,
            λ b inverse. no_inverse b (mod-mul-mod lambda b n ∙ inverse),
          )
        ],
      )
    where
      n : ℕ
      n = p * q

      large : 1 < p * q
      large =
          let wide : 2 * 2 ≤ p * q = mul-le-mul {n₁ = 2} {m₁ = 2} {n₂ = p} {m₂ = q} hp hq in
          omega arith

      square_pos : 0 < p * q * (p * q)
      square_pos =
          let wide : 1 * 1 ≤ p * q * (p * q) =
            mul-le-mul {n₁ = 1} {m₁ = 1} {n₂ = p * q} {m₂ = p * q} (omega (arith, large))
              (omega (arith, large)) in
          omega arith

      kp : ℕ → ℕ → PaillierKeypair
      kp lambda mu = record {
        pk = record { n = p * q; n_sq = p * q * (p * q); g = p * q + 1 };
        sk = record { lambda = lambda; mu = mu };
      }

  -- What is known of a result: two different numbers that are 3 modulo 4, and a key pair of them.
  abbrev pub Generated : ℕ × ℕ × PaillierKeypair → Type 0
  Generated (p, q, kp) =
      (p % 4 ≡ 3)
      × (q % 4 ≡ 3)
      × (p ≢ q)
      × ((lambda : ℕ) × (lcm (p - 1) (q - 1) ≡ some lambda) × Made p q lambda kp)

  -- The loop ends in one of two ways, whatever numbers are drawn: the draws run out, or a key pair of two
  -- of them is returned. It does not panic.
  abbrev pub Ends : Outcome (Unit {0}) (ℕ × ℕ × PaillierKeypair) → Type 0
  Ends o = (o ≡ err tt) ⊎ ((made : ℕ × ℕ × PaillierKeypair) × (o ≡ ok made) × Generated made)

  -- One round that reaches `keypair_of`, for the rest of the run `after`.
  attempt-Ends :
      (p q : ℕ) (after : Outcome (Unit {0}) (ℕ × ℕ × PaillierKeypair))
      → (p % 4 == 3) ≡ true
      → (q % 4 == 3) ≡ true
      → (p == q) ≡ false
      → Ends after
      → Ends
          (keypair_of big p q and_then λ made. elim made [ none ↦ after | some kp ↦ ok (p, q, kp) ])
  attempt-Ends p q after hp hq ne rest =
      let (lambda, e, outcome) = keypair_of-cases p q (ground (arith, hp)) (ground (arith, hq)) in
      elim outcome [
        | inl (kp, f, made) ↦ inr (
          (p, q, kp),
          rw f refl,
          ((==_iff (p % 4) 3).0 hp, (==_iff (q % 4) 3).0 hq, ground (arith, ne), (lambda, e, made)),
        )
        | inr (f, no_inverse) ↦ rw f rest
      ]

  pub generate_keypair_ext-Ends : (primes : List ℕ) → Ends (generate_keypair_ext big primes)
  unfolding generate_keypair_ext
  generate_keypair_ext-Ends [] = inl refl
  generate_keypair_ext-Ends (p ∷ []) = inl refl
  generate_keypair_ext-Ends (p ∷ q ∷ primes) =
      let after_p = generate_keypair_ext-Ends (q ∷ primes) in
      let after_q = generate_keypair_ext-Ends primes in
      elim (Bool-cases (p % 4 == 3)) [
        | inr e ↦ rw e after_p
        | inl hp ↦ elim (Bool-cases (q % 4 == 3)) [
          | inr e ↦ rw (hp, e) after_q
          | inl hq ↦ elim (Bool-cases (p == q)) [
            | inl same ↦ rw (hp, hq, same) after_q
            | inr ne ↦ rw (hp, hq, ne) (attempt-Ends p q _ hp hq ne after_q)
          ]
        ]
      ]

  skip_draw :
      (x y : ℕ) (primes : List ℕ)
      → (x % 4 == 3) ≡ false
      → generate_keypair_ext big (x ∷ y ∷ primes) ≡ generate_keypair_ext big (y ∷ primes)
  unfolding generate_keypair_ext
  skip_draw x y primes e = rw e refl

  returns_at_once :
      (p q lambda b : ℕ) (primes : List ℕ)
      → p % 4 ≡ 3
      → q % 4 ≡ 3
      → p ≢ q
      → lcm (p - 1) (q - 1) ≡ some lambda
      → Congruent (p * q) (lambda * b) 1
      → (kp : PaillierKeypair) × (generate_keypair_ext big (p ∷ q ∷ primes) ≡ ok (p, q, kp))
        × Made p q lambda kp
  unfolding generate_keypair_ext
  returns_at_once p q lambda b primes hp hq ne e inverse =
      let tp : (p % 4 == 3) ≡ true = (==_iff (p % 4) 3).1 hp in
      let tq : (q % 4 == 3) ≡ true = (==_iff (q % 4) 3).1 hq in
      let tn : (p == q) ≡ false = ground (arith, ne) in
      let (lambda', e', outcome) = keypair_of-cases p q (omega (arith, hp)) (omega (arith, hq)) in
      let same : lambda' ≡ lambda = some_inj (sym e' ∙ e) in
      elim outcome [
        | inl (kp, f, made) ↦ (kp, rw (tp, tq, tn, f) refl, subst (λ l. Made p q l kp) same made)
        | inr (f, no_inverse) ↦
            absurd (no_inverse b (subst (λ l. Congruent (p * q) (l * b) 1) (sym same) inverse))
      ]

  -- The loop returns: after draws that are not 3 modulo 4, two different draws that are, with an
  -- invertible lambda, give the key pair.
  pub generate_keypair_ext_returns :
      (rejected : List ℕ) (p q lambda b : ℕ) (primes : List ℕ)
      → All (λ x. (x % 4 == 3) ≡ false) rejected
      → p % 4 ≡ 3
      → q % 4 ≡ 3
      → p ≢ q
      → lcm (p - 1) (q - 1) ≡ some lambda
      → Congruent (p * q) (lambda * b) 1
      → (kp : PaillierKeypair) × (generate_keypair_ext big (rejected ++ (p ∷ q ∷ primes))
          ≡ ok (p, q, kp))
        × Made p q lambda kp
  generate_keypair_ext_returns [] p q lambda b primes unfit hp hq ne e inverse =
      returns_at_once p q lambda b primes hp hq ne e inverse
  generate_keypair_ext_returns (x ∷ []) p q lambda b primes (first, unfit) hp hq ne e inverse =
      let (kp, f, made) = returns_at_once p q lambda b primes hp hq ne e inverse in
      (kp, skip_draw x p (q ∷ primes) first ∙ f, made)
  generate_keypair_ext_returns (x ∷ y ∷ rejected) p q lambda b primes (first, unfit) hp hq ne e
        inverse =
      let (kp, f, made) =
        generate_keypair_ext_returns (y ∷ rejected) p q lambda b primes unfit hp hq ne e inverse in
      (kp, skip_draw x y (rejected ++ (p ∷ q ∷ primes)) first ∙ f, made)
