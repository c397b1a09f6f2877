-- ===== src/Zk/Range/Complete.antt =====
-- An honest range proof is accepted.
use govis.Prelude.{
  ℕ, ◌+◌, ◌*◌, ◌%◌, ◌^◌, ◌<◌, ltb, ◌≡◌, refl, ap, ◌∙◌, arith, some, List, true, false, ==_refl,
}
use govis.Prelude.Int.{ℤ, pos, nat_abs, ◌==ℤ◌}
use govis.Prelude.Modular.{Congruent, mul_congr, pow_congr}
use govis.Big.{Big}
use govis.Big.Draws.{drawn_below}
use govis.Curve.{be_value}
use govis.Paillier.{PaillierPublicKey, encrypt_with_rho}
use govis.Paillier.Arithmetic.{linear_mul, linear_pow, rem?-pos}
use govis.Zk.{g_pow}
use govis.Zk.Powers.{sigma_equation, response_bound}
use govis.Zk.Range.{RangeProof, range_challenge, prove_range, out_of_range, verify_range}

-- What the proofs ask of a public key: `PaillierPublicKey` as the program builds it from an `n` above one.
pub record IsPublicKey (pk : PaillierPublicKey) : Type 0 where
  pub n_large : 1 < pk.n
  pub n_sq_eq : pk.n_sq ≡ pk.n * pk.n
  pub g_eq : pk.g ≡ pk.n + 1

-- The range that a number below n is drawn from is not empty.
pub drawn_below-key :
    (pk : PaillierPublicKey) → IsPublicKey pk → (x : ℤ) → drawn_below pk.n x ≡ some x
unfolding drawn_below
drawn_below-key pk k x =
    let above_one : ltb 1 pk.n ≡ true = ground (arith, k.n_large) in rw above_one refl

pub n_pos : (pk : PaillierPublicKey) → IsPublicKey pk → 0 < pk.n
n_pos pk k = omega (arith, k.n_large)

pub n_sq_pos : (pk : PaillierPublicKey) → IsPublicKey pk → 0 < pk.n_sq
n_sq_pos pk k = rw (k.n_sq_eq) (grind (arith, k.n_large))

-- (1 + alpha n) ((n + 1)^m)^e and 1 + (alpha + e m) n.
pub linear_response :
    (n alpha m e : ℕ)
    → Congruent (n * n) ((1 + alpha * n) * ((n + 1) ^ m) ^ e) (1 + (alpha + e * m) * n)
linear_response n alpha m e =
    mul_congr (n * n) (1 + alpha * n) (1 + alpha * n) (((n + 1) ^ m) ^ e) (1 + e * (m * 1) * n) refl
      (pow_congr (n * n) e ((n + 1) ^ m) (1 + m * 1 * n)
          (ap (λ t. t ^ m % (n * n)) {x = n + 1} {y = 1 + 1 * n} (omega arith) ∙ linear_pow n 1 m)
        ∙ linear_pow n (m * 1) e)
    ∙ linear_mul n alpha (e * (m * 1))
    ∙ ap (λ t. (1 + t * n) % (n * n)) {x = alpha + e * (m * 1)} {y = alpha + e * m} (omega arith)

pub in_range : (k z : ℕ) → z < 2 ^ k → out_of_range k (pos z) ≡ false
unfolding out_of_range
in_range k z h = ground arith

range_equation :
    (n n_sq g m rho alpha gamma e : ℕ)
    → n_sq ≡ n * n
    → g ≡ n + 1
    → (1 + alpha * n)
        % n_sq
        * (gamma ^ n % n_sq)
        % n_sq
        * ((g ^ m % n_sq * (rho ^ n % n_sq) % n_sq) ^ e % n_sq)
        % n_sq
      ≡ (1 + (alpha + e * m) * n) % n_sq * ((gamma * (rho ^ e % n) % n) ^ n % n_sq) % n_sq
range_equation n n_sq g m rho alpha gamma e p q =
    rw (p, q)
      (sigma_equation n (1 + alpha * n) ((n + 1) ^ m) (1 + (alpha + e * m) * n) gamma rho e
        (linear_response n alpha m e))

pub g_pow-pos : (m n d : ℕ) → 0 < d → g_pow (pos m) n d ≡ some (pos ((1 + m * n) % d))
unfolding g_pow
g_pow-pos m n d h = rem?-pos (1 + m * n) d h

pub same : (a : ℕ) → (pos a ==ℤ pos a) ≡ true
same a = ==_refl (a + 0)

module _ (big : Big) (sha256 : List ℕ → List ℕ) where
  open big use {modpow, modpow-pos, bits}

  module _ (pk : PaillierPublicKey) (key : IsPublicKey pk) (m rho ell alpha gamma : ℕ)
      (sid : List ℕ) where
    -- The ciphertext, the commitment, the challenge and the response.
    abbrev pub cipher : ℕ
    cipher = (pk.g ^ m % pk.n_sq) * (rho ^ pk.n % pk.n_sq) % pk.n_sq

    abbrev pub commitment : ℕ
    commitment = ((1 + alpha * pk.n) % pk.n_sq) * (gamma ^ pk.n % pk.n_sq) % pk.n_sq

    abbrev pub challenge : ℕ
    challenge = nat_abs (range_challenge big sha256 sid pk.n pk.g ell (pos cipher) (pos commitment))

    abbrev pub honest_proof : RangeProof
    honest_proof = record {
      c_alpha = pos commitment;
      z = pos (alpha + challenge * m);
      s = pos (gamma * (rho ^ challenge % pk.n) % pk.n);
    }

    challenge-pos :
        range_challenge big sha256 sid pk.n pk.g ell (pos cipher) (pos commitment) ≡ pos challenge
    unfolding range_challenge
    challenge-pos = refl

    pub encrypt-cipher : encrypt_with_rho big pk (pos m) (pos rho) ≡ some (pos cipher)
    unfolding encrypt_with_rho
    encrypt-cipher =
        rw
          (
            modpow-pos pk.g m pk.n_sq (n_sq_pos pk key),
            modpow-pos rho pk.n pk.n_sq (n_sq_pos pk key),
          )
          (rem?-pos _ pk.n_sq (n_sq_pos pk key))

    pub prove_range-honest :
        prove_range big sha256 pk (pos cipher) (pos m) (pos rho) ell sid (pos alpha) (pos gamma)
        ≡ some honest_proof
    unfolding prove_range
    prove_range-honest =
        rw
          (
            drawn_below-key pk key (pos gamma),
            g_pow-pos alpha pk.n pk.n_sq (n_sq_pos pk key),
            modpow-pos gamma pk.n pk.n_sq (n_sq_pos pk key),
            rem?-pos (((1 + alpha * pk.n) % pk.n_sq) * (gamma ^ pk.n % pk.n_sq)) pk.n_sq
                (n_sq_pos pk key),
            challenge-pos,
            modpow-pos rho challenge pk.n (n_pos pk key),
            rem?-pos (gamma * (rho ^ challenge % pk.n)) pk.n (n_pos pk key),
          )
          refl

    equation :
        commitment * (cipher ^ challenge % pk.n_sq) % pk.n_sq
        ≡ ((1 + (alpha + challenge * m) * pk.n) % pk.n_sq)
          * ((gamma * (rho ^ challenge % pk.n) % pk.n) ^ pk.n % pk.n_sq)
          % pk.n_sq
    equation = range_equation pk.n pk.n_sq pk.g m rho alpha gamma challenge key.n_sq_eq key.g_eq

    verify_range-honest :
        challenge < 2 ^ 256
        → m < 2 ^ ell
        → alpha < 2 ^ (ell + 256 + bits pk.n)
        → verify_range big sha256 pk (pos cipher) ell sid honest_proof ≡ some true
    unfolding verify_range
    verify_range-honest he hm ha =
        rw
          (
            in_range (ell + 256 + bits pk.n + 1) (alpha + challenge * m)
                (response_bound ell (bits pk.n) alpha challenge m ha he hm),
            challenge-pos,
            modpow-pos cipher challenge pk.n_sq (n_sq_pos pk key),
            rem?-pos (commitment * (cipher ^ challenge % pk.n_sq)) pk.n_sq (n_sq_pos pk key),
            g_pow-pos (alpha + challenge * m) pk.n pk.n_sq (n_sq_pos pk key),
            modpow-pos (gamma * (rho ^ challenge % pk.n) % pk.n) pk.n pk.n_sq (n_sq_pos pk key),
            rem?-pos
                (((1 + (alpha + challenge * m) * pk.n) % pk.n_sq)
                  * ((gamma * (rho ^ challenge % pk.n) % pk.n) ^ pk.n % pk.n_sq))
                pk.n_sq (n_sq_pos pk key),
            equation,
          )
          (ap some (same _))

  -- For a public key of the program's form with n above one, and a hash of 32 bytes: the encryption of `m` below 2^ell and
  -- the proof made for it with `alpha` below 2^(ell + 256 + bits n) do not panic, and `verify_range`
  -- accepts that proof for that ciphertext.
  pub prove_range-accepted :
      (pk : PaillierPublicKey) (m rho ell alpha gamma : ℕ) (sid : List ℕ)
      → IsPublicKey pk
      → ((bs : List ℕ) → be_value (sha256 bs) < 2 ^ 256)
      → m < 2 ^ ell
      → alpha < 2 ^ (ell + 256 + bits pk.n)
      → (c : ℤ) × (proof : RangeProof) × (encrypt_with_rho big pk (pos m) (pos rho) ≡ some c)
        × (prove_range big sha256 pk c (pos m) (pos rho) ell sid (pos alpha) (pos gamma)
            ≡ some proof)
        × (verify_range big sha256 pk c ell sid proof ≡ some true)
  prove_range-accepted pk m rho ell alpha gamma sid key hash hm ha = (
    pos (cipher pk key m rho ell alpha gamma sid),
    honest_proof pk key m rho ell alpha gamma sid,
    encrypt-cipher pk key m rho ell alpha gamma sid,
    prove_range-honest pk key m rho ell alpha gamma sid,
    verify_range-honest pk key m rho ell alpha gamma sid (unfold range_challenge in hash _) hm ha,
  )
