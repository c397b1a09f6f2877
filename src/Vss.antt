-- ===== src/Vss.antt =====
-- src/core.rs: Feldman verifiable secret sharing, shared by both protocols.
-- The scalars that the program draws from its random generator are the argument `draw`: `draw k` is
-- the coefficient of x ^ (k + 1).
pub mod Polynomial
pub mod Shares
pub mod Lagrange
pub mod Refresh
use govis.Prelude.{
  ℕ, zero, suc, ◌+◌, ◌-◌, ◌/◌, ◌%◌, ◌^◌, ◌==◌, leb, if◌then◌else◌, Option, none, some, List, [],
  ◌∷◌, ◌++◌, map, range_from, slice?, codes, Bool,
}
use govis.Prelude.Int.{ℤ, pos}
use govis.Curve.{Curve, be_value}
use mathlib.Core.Option

-- `i + 1` on a `u16`.
abbrev pub next_u16 : ℕ → ℕ
next_u16 i = (i + 1) % 2 ^ 16

-- `u16::to_be_bytes`.
abbrev pub u16_be_bytes : ℕ → List ℕ
u16_be_bytes i = (i / 256 % 256) ∷ (i % 256) ∷ []

module _ (c : Curve) where
  open c use {
    Scalar, Point, zero_s, one_s, add, sub, mul, invert, from_nat, to_be_bytes,
    from_be_bytes_mod_order, generator, identity, padd, scale, point_bytes,
  }

  -- src/types.rs
  pub record DkgShares : Type 0 where
    pub commitments : List Point
    pub secret_shares : List Scalar

  unfoldable pub scalar_to_bigint : Scalar → ℤ
  scalar_to_bigint s = pos (be_value (to_be_bytes s))

  -- `BigUint::to_be_bytes` is the argument `bytes_of`.
  unfoldable pub biguint_to_scalar : (ℕ → List ℕ) → ℕ → Scalar
  biguint_to_scalar bytes_of b = from_be_bytes_mod_order (bytes_of b)

  -- `none` is the panic of a slice out of range.
  unfoldable pub point_x_coord : Point → Option Scalar
  point_x_coord point =
      Option.map from_be_bytes_mod_order (slice? 1 32 (point_bytes Bool.false point))

  -- The loop over the signers, from the products so far.
  unfoldable pub lagrange_loop : ℕ → List ℕ → Scalar → Scalar → Scalar × Scalar
  lagrange_loop i [] num den = (num, den)
  lagrange_loop i (j ∷ signers) num den =
      let x_i = from_nat (next_u16 i) in
      let x_j = from_nat (next_u16 j) in
      lagrange_loop i signers (if j == i then num else mul num x_j)
        (if j == i then den else mul den (sub x_j x_i))

  -- `none` is the panic of `expect` on a denominator without an inverse.
  unfoldable pub lagrange_coeff : ℕ → List ℕ → Option Scalar
  lagrange_coeff i signers =
      let products = lagrange_loop i signers one_s one_s in
      Option.map (mul products.0) (invert products.1)

  -- `for a in &coeffs { share += a * x_pow; x_pow *= x; }`
  unfoldable pub share_loop : List Scalar → Scalar → Scalar → Scalar → Scalar
  share_loop [] x share x_pow = share
  share_loop (a ∷ coeffs) x share x_pow =
      share_loop coeffs x (add share (mul a x_pow)) (mul x_pow x)

  -- `vec![intercept]` and one draw for each of `1..t`.
  unfoldable pub coefficients : Scalar → ℕ → (ℕ → Scalar) → List Scalar
  coefficients intercept t draw = intercept ∷ map draw (range_from 0 (t - 1))

  -- `none` is the panic of `assert!(threshold <= total_parties)`.
  unfoldable pub generate_shares_internal : Scalar → ℕ → ℕ → (ℕ → Scalar) → Option DkgShares
  generate_shares_internal intercept threshold total_parties draw =
      if leb threshold total_parties
      then (let coeffs = coefficients intercept threshold draw in
          some (record {
            commitments = map (scale generator) coeffs;
            secret_shares =
                map (λ i. share_loop coeffs (from_nat i) zero_s one_s) (range_from 1 total_parties);
          }))
      else none

  -- The intercept is the first draw.
  unfoldable pub generate_dkg_shares : ℕ → ℕ → (ℕ → Scalar) → Option DkgShares
  generate_dkg_shares t n draw = generate_shares_internal (draw 0) t n (λ k. draw (suc k))

  unfoldable pub generate_refresh_shares : ℕ → ℕ → (ℕ → Scalar) → Option DkgShares
  generate_refresh_shares t n draw = generate_shares_internal zero_s t n draw

  unfoldable pub evaluate_polynomial : Scalar → ℕ → ℕ → (ℕ → Scalar) → List Point × List Scalar
  evaluate_polynomial intercept t n draw =
      let coeffs = coefficients intercept t draw in
      (
        map (scale generator) coeffs,
        map (λ j. share_loop coeffs (from_nat (next_u16 j)) zero_s one_s) (range_from 0 n),
      )

  -- The bytes that the points are hashed as.
  unfoldable pub points_bytes : List Point → List ℕ
  points_bytes [] = []
  points_bytes (point ∷ points) = point_bytes Bool.true point ++ points_bytes points

  -- SHA-256 is the argument `sha256`.
  unfoldable pub compute_commitment : (List ℕ → List ℕ) → List ℕ → ℕ → List Point → List ℕ
  compute_commitment sha256 sid party_index commitments =
      sha256 (
        codes "govis-dkg-commit" ++ (sid ++ (u16_be_bytes party_index ++ points_bytes commitments)))

  unfoldable pub update_private_share : Scalar → List Scalar → Scalar
  update_private_share old_share [] = old_share
  update_private_share old_share (offset ∷ received_offsets) =
      update_private_share (add old_share offset) received_offsets

  -- The loop of src/lindell/dkg.rs and src/cggmp21/keygen.rs over a sender's commitments:
  -- `for comm in &commitments { share_point += comm * x_pow; x_pow *= x; }`
  unfoldable pub share_point_loop : List Point → Scalar → Point → Scalar → Point
  share_point_loop [] x share_point x_pow = share_point
  share_point_loop (comm ∷ commitments) x share_point x_pow =
      share_point_loop commitments x (padd share_point (scale comm x_pow)) (mul x_pow x)

  -- From `Point::generator() * Scalar::zero()` and `Scalar::one()`.
  unfoldable pub share_point : List Point → ℕ → Point
  share_point commitments receiver =
      share_point_loop commitments (from_nat (next_u16 receiver)) (scale generator zero_s) one_s
