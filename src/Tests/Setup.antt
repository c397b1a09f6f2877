-- ===== src/Tests/Setup.antt =====
-- What the tests share.
use govis.Vss.{lagrange_coeff, lagrange_loop}
use govis.Curve.Toy.{n2, n4}
use govis.Prelude.{
  ◌≡◌, refl, All, some, ◌==◌, if◌then◌else◌, ℕ, ◌^◌, ◌<◌, refl, List, [], ◌∷◌, arith,
}
use govis.Curve.{be_value}
use govis.Curve.Toy.{toy, F5, n1, n3}
use govis.Paillier.{PaillierPublicKey, PaillierPrivateKey}
use govis.Paillier.Plaintext.{IsKeypair}
use govis.Zk.Range.Complete.{IsPublicKey}
use govis.Vss.Lagrange.{Distinct}

abbrev pub constant_hash : List ℕ → List ℕ
constant_hash bs = 1 ∷ []

-- n = 7 * 11, and lambda is the least common multiple of 6 and 10.
abbrev pub public_77 : PaillierPublicKey
public_77 = record { n = 77; n_sq = 5929; g = 78 }

abbrev pub private_77 : PaillierPrivateKey
private_77 = record { lambda = 30; mu = 18 }

pub private_77-IsKeypair : IsKeypair public_77 private_77
private_77-IsKeypair = record {
  n_large = omega arith;
  n_sq_eq = refl;
  g_eq = refl;
  mu_inverse = refl;
}

pub public_77-IsPublicKey : IsPublicKey public_77
public_77-IsPublicKey = record { n_large = omega arith; n_sq_eq = refl; g_eq = refl }

pub constant_hash_lt : (bs : List ℕ) → be_value (constant_hash bs) < 2 ^ 256
constant_hash_lt bs = omega arith

-- The polynomial 3 + x, and two signers.
abbrev pub line : List F5
line = n3 ∷ n1 ∷ []

abbrev pub two_signers : List ℕ
two_signers = 0 ∷ 1 ∷ []

pub two_signers-Distinct : Distinct toy two_signers
two_signers-Distinct = ((((λ e. omega (arith, e)), λ e. cc), tt), (tt, tt))

-- Their Lagrange coefficients.
abbrev pub weights : ℕ → F5
weights j = if j == 0 then n2 else n4

pub weights_lem : All (λ j. lagrange_coeff toy j two_signers ≡ some (weights j)) two_signers
unfolding lagrange_coeff lagrange_loop
weights_lem = (refl, (refl, tt))
