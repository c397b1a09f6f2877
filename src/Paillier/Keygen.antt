-- ===== src/Paillier/Keygen.antt =====
-- src/paillier.rs: the key generation.
pub mod Gcd
pub mod Inverse
pub mod Keypair
use govis.Prelude.{
  ℕ, zero, suc, ◌+◌, ◌-◌, ◌*◌, ◌/◌, ◌%◌, ◌<◌, ltb, ◌==◌, if◌then◌else◌, Option, none, some, List,
  [], ◌∷◌, Outcome, ok, err, panic, expect, arith, Bool, true, false,
}
use govis.Prelude.{◌>>=◌ as ◌and_then◌}
use govis.Prelude.Int.{ℤ, pos, negsuc, ◌+ℤ◌, ◌==ℤ◌, mod_floor, is_neg}
use govis.Prelude.Order.{lt_wf}
use govis.Big.{Big}
use govis.Paillier.{PaillierPublicKey, PaillierPrivateKey, PaillierKeypair, l_function}
use govis.Zk.Blum.{modinv_loop}
use mathlib.Core.WellFounded.{Acc}
use native.Mathlib.Nat.{mod-lt}

pub gcd_shrinks : (a b : ℕ) → 0 < b → a % b < b
gcd_shrinks a b h = mod-lt a h

-- `if b.is_zero() { return a } biguint_gcd(b, a % b)`.
unfoldable pub gcd_loop : ℕ → (b : ℕ) → Acc ◌<◌ b → ℕ
gcd_loop a zero w = a
gcd_loop a (suc b) (Acc.intro _ smaller) =
    gcd_loop (suc b) (a % suc b) (smaller (a % suc b) (gcd_shrinks a (suc b) (omega arith)))

unfoldable pub biguint_gcd : ℕ → ℕ → ℕ
biguint_gcd a b = gcd_loop a b (lt_wf.apply b)

-- `none` is the panic of a division by zero.
unfoldable pub lcm : ℕ → ℕ → Option ℕ
lcm a b = let gcd = biguint_gcd a b in if gcd == 0 then none else some (a * b / gcd)

-- By a modulus that is positive; 0 stands for a number that has no inverse.
unfoldable pub modinv : ℤ → ℕ → ℤ
modinv a n =
    let new_r = mod_floor a n in
    let (t, r) = modinv_loop (pos 0) (pos 1) n new_r (lt_wf.apply new_r) in
    if ltb 1 r then pos 0 else if is_neg t then t +ℤ pos n else t

-- `BigInt::to_biguint`.
abbrev pub to_biguint : ℤ → Option ℕ
to_biguint (pos n) = some n
to_biguint (negsuc n) = none

-- What the loop does with two primes that pass its tests: `none` inside is its last `continue`.
module _ (big : Big) where
  open big use {modpow}

  unfoldable pub keypair_of : ℕ → ℕ → Outcome (Unit {0}) (Option PaillierKeypair)
  keypair_of p q =
      let n = p * q in
      let n_sq = n * n in
      let g = n + 1 in
      expect (lcm (p - 1) (q - 1)) and_then λ lambda.
      expect (modpow (pos g) (pos lambda) (pos n_sq)) and_then λ g_lambda.
      expect (l_function g_lambda n) and_then λ l.
      let mu = modinv l n in
      if mu ==ℤ pos 0
      then ok none
      else (expect (to_biguint mu) and_then λ mu_n. ok (
          some (record {
            pk = record { n = n; n_sq = n_sq; g = g };
            sk = record { lambda = lambda; mu = mu_n };
          })))

  -- The loop, on the primes that `new_prime` draws: `err` is the end of the list before it returns.
  unfoldable pub generate_keypair_ext : List ℕ → Outcome (Unit {0}) (ℕ × ℕ × PaillierKeypair)
  generate_keypair_ext [] = err tt
  generate_keypair_ext (p ∷ []) = err tt
  generate_keypair_ext (p ∷ q ∷ primes) =
      let after_p = generate_keypair_ext (q ∷ primes) in
      let after_q = generate_keypair_ext primes in
      let attempt =
        keypair_of p q and_then λ made. elim made [ none ↦ after_q | some kp ↦ ok (p, q, kp) ] in
      if p % 4 == 3
      then (if q % 4 == 3 then (if p == q then after_q else attempt) else after_q)
      else after_p

  unfoldable pub generate_keypair : List ℕ → Outcome (Unit {0}) PaillierKeypair
  generate_keypair primes = generate_keypair_ext primes and_then λ made. ok made.2
