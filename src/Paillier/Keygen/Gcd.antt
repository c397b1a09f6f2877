-- ===== src/Paillier/Keygen/Gcd.antt =====
-- What the greatest-common-divisor and least-common-multiple routines of the key generation compute.
use govis.Prelude.{ℕ, zero, suc, ◌*◌, ◌/◌, ◌%◌, ◌<◌, ◌==◌, some, ◌≡◌, refl, arith, false}
use govis.Prelude.Order.{lt_wf}
use govis.Paillier.Keygen.{gcd_loop, biguint_gcd, lcm, gcd_shrinks}
use mathlib.Core.WellFounded.{Acc}
use mathlib.Core.Path.{subst}
use Prim.Native.Nat.{◌∣◌}
use native.Mathlib.Nat.{
  dvd_refl, dvd-zero, dvd-mod_iff, dvd-mul_left_of_dvd, div-mul_cancel, dvd-mul_right,
  mul-div_assoc, mul_comm, pos_of_dvd_of_pos,
}

-- The loop's result divides both arguments, and every common divisor divides it.
gcd_loop-divides :
    (a b : ℕ) (w : Acc ◌<◌ b)
    → (gcd_loop a b w ∣ a) × (gcd_loop a b w ∣ b) × ((d : ℕ) → d ∣ a → d ∣ b → d ∣ gcd_loop a b w)
unfolding gcd_loop
gcd_loop-divides a zero w = (dvd_refl a, dvd-zero a, λ d p q. p)
gcd_loop-divides a (suc b) (Acc.intro _ smaller) =
    let (p, q, greatest) =
      gcd_loop-divides (suc b) (a % suc b)
        (smaller (a % suc b) (gcd_shrinks a (suc b) (omega arith))) in
    ((dvd-mod_iff _ p).0 q, p, λ d da db. greatest d db ((dvd-mod_iff d db).1 da))

-- The greatest common divisor, by divisibility.
biguint_gcd_divides :
    (a b : ℕ)
    → (biguint_gcd a b ∣ a)
      × (biguint_gcd a b ∣ b)
      × ((d : ℕ) → d ∣ a → d ∣ b → d ∣ biguint_gcd a b)
unfolding biguint_gcd
biguint_gcd_divides a b = gcd_loop-divides a b (lt_wf.apply b)

-- For two numbers of which the first is not zero, `lcm` does not panic, its result is a multiple of both
-- numbers, and the result times the greatest common divisor is their product.
pub lcm_multiple :
    (a b : ℕ)
    → 0 < a
    → (m : ℕ) × (lcm a b ≡ some m) × (a ∣ m) × (b ∣ m) × (m * biguint_gcd a b ≡ a * b)
unfolding lcm
lcm_multiple a b h =
    let (da, db, greatest) = biguint_gcd_divides a b in
    let gcd_pos : 0 < biguint_gcd a b = pos_of_dvd_of_pos da h in
    let nonzero : (biguint_gcd a b == 0) ≡ false = ground arith in
    (
      a * b / biguint_gcd a b,
      rw nonzero refl,
      rw (mul-div_assoc (biguint_gcd a b) a db) (dvd-mul_right a (b / biguint_gcd a b)),
      subst (λ t. b ∣ t / biguint_gcd a b) (mul_comm b a)
          (rw (mul-div_assoc (biguint_gcd a b) b da) (dvd-mul_right b (a / biguint_gcd a b))),
      div-mul_cancel (biguint_gcd a b) (dvd-mul_left_of_dvd (biguint_gcd a b) db a),
    )
