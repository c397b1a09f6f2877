-- ===== src/Paillier.antt =====
-- src/paillier.rs: the Paillier cryptosystem.
pub mod Arithmetic
pub mod Plaintext
pub mod Keygen
use govis.Prelude.{
  ℕ, zero, suc, ◌+◌, ◌-◌, ◌*◌, ◌/◌, ◌%◌, ◌^◌, ◌<◌, ◌==◌, if◌then◌else◌, Option, none, some, List,
  [], ◌∷◌, Bool, true, false, ◌≡◌,
}
use govis.Prelude.Int.{ℤ, pos, ◌-ℤ◌, ◌*ℤ◌, div?, rem?}
use govis.Prelude.Maybe.{◌>>=◌}
use govis.Big.{Big}
use govis.Big.Draws.{drawn_below}
use mathlib.Core.Option

pub record PaillierPublicKey : Type 0 where
  pub n : ℕ
  pub n_sq : ℕ
  pub g : ℕ

pub record PaillierPrivateKey : Type 0 where
  pub lambda : ℕ
  pub mu : ℕ

pub record PaillierKeypair : Type 0 where
  pub pk : PaillierPublicKey
  pub sk : PaillierPrivateKey

-- `(x - 1) / n`.
unfoldable pub l_function : ℤ → ℕ → Option ℤ
l_function x n = div? (x -ℤ pos 1) n

module _ (big : Big) where
  open big use {modpow}

  unfoldable pub encrypt_with_rho : PaillierPublicKey → ℤ → ℤ → Option ℤ
  encrypt_with_rho pk m rho = do
    gm ← modpow (pos pk.g) m (pos pk.n_sq)
    rn ← modpow rho (pos pk.n) (pos pk.n_sq)
    rem? (gm *ℤ rn) pk.n_sq

  -- The randomness is the argument `drawn`.
  unfoldable pub encrypt : PaillierPublicKey → ℤ → ℤ → Option ℤ
  encrypt pk m drawn = do rho ← drawn_below pk.n drawn; encrypt_with_rho pk m rho

  unfoldable pub add : PaillierPublicKey → ℤ → ℤ → Option ℤ
  add pk c1 c2 = rem? (c1 *ℤ c2) pk.n_sq

  unfoldable pub scalar_mul : PaillierPublicKey → ℤ → ℤ → Option ℤ
  scalar_mul pk c k = modpow c k (pos pk.n_sq)

  unfoldable pub decrypt : PaillierPrivateKey → PaillierPublicKey → ℤ → Option ℤ
  decrypt sk pk c = do
    c_lambda ← modpow c (pos sk.lambda) (pos pk.n_sq)
    l ← l_function c_lambda pk.n
    rem? (l *ℤ pos sk.mu) pk.n
