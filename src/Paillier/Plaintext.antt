-- ===== src/Paillier/Plaintext.antt =====
-- Encryption, the homomorphic operations and decryption, over ciphertexts that open to a number.
use govis.Prelude.{ℕ, ◌+◌, ◌-◌, ◌*◌, ◌%◌, ◌^◌, ◌<◌, ◌≡◌, sym, ap, ◌∙◌, arith, none, some}
use govis.Prelude.Int.{ℤ, pos, negsuc, ◌-ℤ◌}
use govis.Prelude.Modular.{Congruent, mul_congr, pow-mul, mul-pow, pow_congr}
use govis.Big.{Big}
use govis.Paillier.{
  PaillierPublicKey, PaillierPrivateKey, l_function, encrypt_with_rho, add, scalar_mul, decrypt,
}
use govis.Paillier.Arithmetic.{
  linear_mul, linear_pow, linear_mod, rem?-pos, div?-pos, reduced_product, encrypted_pow,
  l_times_mu,
}
use native.Mathlib.Nat.{mod-mod}

-- A key pair as `generate_keypair` makes it: mu is the inverse of lambda modulo n.
pub record IsKeypair (pk : PaillierPublicKey) (sk : PaillierPrivateKey) : Type 0 where
  pub n_large : 1 < pk.n
  pub n_sq_eq : pk.n_sq ≡ pk.n * pk.n
  pub g_eq : pk.g ≡ pk.n + 1
  pub mu_inverse : Congruent pk.n (sk.lambda * sk.mu) 1

-- A randomness whose n-th power the private exponent kills: a unit modulo n.
abbrev pub IsRandomness : PaillierPublicKey → PaillierPrivateKey → ℕ → Type 0
IsRandomness pk sk rho = Congruent (pk.n * pk.n) ((rho ^ pk.n) ^ sk.lambda) 1

-- The ciphertext `c` opens to `m`: to the private exponent, it is 1 + m lambda n.
abbrev pub Opens : PaillierPublicKey → PaillierPrivateKey → ℕ → ℕ → Type 0
Opens pk sk c m = Congruent (pk.n * pk.n) (c ^ sk.lambda) (1 + m * sk.lambda * pk.n)

pub pos-minus_one : (a : ℕ) → 0 < a → pos a -ℤ pos 1 ≡ pos (a - 1)
pos-minus_one a h = ground arith

pow_swap : (a j k : ℕ) → (a ^ j) ^ k ≡ (a ^ k) ^ j
pow_swap a j k =
    sym (pow-mul a j k) ∙ ap (λ t. a ^ t) {x = j * k} {y = k * j} (omega arith) ∙ pow-mul a k j

module _ (big : Big) (pk : PaillierPublicKey) (sk : PaillierPrivateKey)
    (key : IsKeypair pk sk) where
  open big use {modpow, modpow-pos}

  n_sq_pos : 0 < pk.n_sq
  n_sq_pos = rw (key.n_sq_eq) (grind (arith, key.n_large))

  -- A product of two reductions modulo n², in the terms of the key.
  Opens-congr : (c d m : ℕ) → Congruent (pk.n * pk.n) c d → Opens pk sk d m → Opens pk sk c m
  Opens-congr c d m p q = pow_congr (pk.n * pk.n) sk.lambda c d p ∙ q

  -- Encryption of a number that is not negative does not panic, and the ciphertext opens to it.
  pub encrypt_with_rho-Opens :
      (m rho : ℕ)
      → IsRandomness pk sk rho
      → (c : ℕ) × (encrypt_with_rho big pk (pos m) (pos rho) ≡ some (pos c)) × Opens pk sk c m
  unfolding encrypt_with_rho
  encrypt_with_rho-Opens m rho unit = (
    (pk.g ^ m % pk.n_sq) * (rho ^ pk.n % pk.n_sq) % pk.n_sq,
    rw (modpow-pos pk.g m pk.n_sq n_sq_pos, modpow-pos rho pk.n pk.n_sq n_sq_pos)
        (rem?-pos _ pk.n_sq n_sq_pos),
    Opens-congr _ ((pk.n + 1) ^ m * rho ^ pk.n) m
        (rw (key.n_sq_eq, key.g_eq) (reduced_product ((pk.n + 1) ^ m) (rho ^ pk.n) (pk.n * pk.n)))
        (encrypted_pow pk.n sk.lambda m rho unit),
  )

  pub add-Opens :
      (c1 c2 m1 m2 : ℕ)
      → Opens pk sk c1 m1
      → Opens pk sk c2 m2
      → (c : ℕ) × (add big pk (pos c1) (pos c2) ≡ some (pos c)) × Opens pk sk c (m1 + m2)
  unfolding add
  add-Opens c1 c2 m1 m2 o1 o2 = (
    c1 * c2 % pk.n_sq,
    rem?-pos (c1 * c2) pk.n_sq n_sq_pos,
    Opens-congr _ (c1 * c2) (m1 + m2) (rw (key.n_sq_eq) (mod-mod (c1 * c2) (pk.n * pk.n))) (
        ap (λ t. t % (pk.n * pk.n)) (mul-pow c1 c2 sk.lambda)
        ∙ mul_congr (pk.n * pk.n) _ (1 + m1 * sk.lambda * pk.n) _ (1 + m2 * sk.lambda * pk.n) o1 o2
        ∙ linear_mul pk.n (m1 * sk.lambda) (m2 * sk.lambda)
        ∙ ap (λ t. t % (pk.n * pk.n)) {x = 1 + (m1 * sk.lambda + m2 * sk.lambda) * pk.n}
            {y = 1 + (m1 + m2) * sk.lambda * pk.n} (omega arith)),
  )

  pub scalar_mul-Opens :
      (c m k : ℕ)
      → Opens pk sk c m
      → (d : ℕ) × (scalar_mul big pk (pos c) (pos k) ≡ some (pos d)) × Opens pk sk d (k * m)
  unfolding scalar_mul
  scalar_mul-Opens c m k o = (
    c ^ k % pk.n_sq,
    modpow-pos c k pk.n_sq n_sq_pos,
    Opens-congr _ (c ^ k) (k * m) (rw (key.n_sq_eq) (mod-mod (c ^ k) (pk.n * pk.n))) (
        ap (λ t. t % (pk.n * pk.n)) (pow_swap c k sk.lambda)
        ∙ pow_congr (pk.n * pk.n) k (c ^ sk.lambda) (1 + m * sk.lambda * pk.n) o
        ∙ linear_pow pk.n (m * sk.lambda) k
        ∙ ap (λ t. t % (pk.n * pk.n)) {x = 1 + k * (m * sk.lambda) * pk.n}
            {y = 1 + k * m * sk.lambda * pk.n} (omega arith)),
  )

  -- Decryption returns what the ciphertext opens to, modulo n.
  pub decrypt-Opens :
      (c m : ℕ) → Opens pk sk c m → decrypt big sk pk (pos c) ≡ some (pos (m % pk.n))
  unfolding decrypt l_function
  decrypt-Opens c m o =
      rw
        (
          modpow-pos c sk.lambda pk.n_sq n_sq_pos,
          lambda_power,
          less_one,
          div?-pos _ pk.n (omega (arith, key.n_large)),
        )
        (rem?-pos _ pk.n (omega (arith, key.n_large))
          ∙ ap (λ t. some (pos t)) (l_times_mu pk.n sk.lambda sk.mu m key.n_large key.mu_inverse))
    where
      lambda_power : c ^ sk.lambda % pk.n_sq ≡ (1 + m * sk.lambda * pk.n) % (pk.n * pk.n)
      lambda_power = ap (λ t. c ^ sk.lambda % t) key.n_sq_eq ∙ o

      less_one :
          pos ((1 + m * sk.lambda * pk.n) % (pk.n * pk.n)) -ℤ pos 1
          ≡ pos ((1 + m * sk.lambda * pk.n) % (pk.n * pk.n) - 1)
      less_one = pos-minus_one _ (omega (arith, linear_mod pk.n (m * sk.lambda) key.n_large))

  -- Encrypting a number and decrypting the ciphertext gives the number back, modulo n.
  pub decrypt-encrypt :
      (m rho : ℕ)
      → IsRandomness pk sk rho
      → (c : ℤ) × (encrypt_with_rho big pk (pos m) (pos rho) ≡ some c)
        × (decrypt big sk pk c ≡ some (pos (m % pk.n)))
  decrypt-encrypt m rho unit =
      let (c, e, o) = encrypt_with_rho-Opens m rho unit in (pos c, e, decrypt-Opens c m o)

  -- The chain of the tests, (a + b) k: two encryptions, multiplied and raised to the power `k` under
  -- the encryption, decrypt to (a + b) k modulo n.
  pub decrypt-chain :
      (a b k rho1 rho2 : ℕ)
      → IsRandomness pk sk rho1
      → IsRandomness pk sk rho2
      → (c1 c2 sum product : ℤ) × (encrypt_with_rho big pk (pos a) (pos rho1) ≡ some c1)
        × (encrypt_with_rho big pk (pos b) (pos rho2) ≡ some c2)
        × (add big pk c1 c2 ≡ some sum)
        × (scalar_mul big pk sum (pos k) ≡ some product)
        × (decrypt big sk pk sum ≡ some (pos ((a + b) % pk.n)))
        × (decrypt big sk pk product ≡ some (pos (k * (a + b) % pk.n)))
  decrypt-chain a b k rho1 rho2 unit1 unit2 =
      let (c1, e1, o1) = encrypt_with_rho-Opens a rho1 unit1 in
      let (c2, e2, o2) = encrypt_with_rho-Opens b rho2 unit2 in
      let (s, es, os) = add-Opens c1 c2 a b o1 o2 in
      let (p, ep, op) = scalar_mul-Opens s (a + b) k os in
      (
        pos c1,
        pos c2,
        pos s,
        pos p,
        e1,
        e2,
        es,
        ep,
        decrypt-Opens s (a + b) os,
        decrypt-Opens p (k * (a + b)) op,
      )

  -- A negative plaintext makes the encryption panic: `modpow` takes no negative exponent.
  pub encrypt_with_rho-negsuc : (m : ℕ) (rho : ℤ) → encrypt_with_rho big pk (negsuc m) rho ≡ none
  unfolding encrypt_with_rho
  encrypt_with_rho-negsuc m rho = rw (big.modpow-negsuc (pos pk.g) (pos pk.n_sq) m)
