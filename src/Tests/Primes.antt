-- ===== src/Tests/Primes.antt =====
-- Key pairs from drawn primes.
use govis.Prelude.{◌≡◌, ◌≢◌, ◌⊎◌, refl, ℕ, ◌*◌, some, [], ◌∷◌, ok, arith}
use govis.Prelude.Int.{pos}
use govis.Prelude.Modular.{Congruent}
use govis.Prelude.Order.{lt_wf}
use govis.Big.{toy_big}
use govis.Paillier.{PaillierKeypair}
use govis.Paillier.Keygen.{gcd_loop, biguint_gcd, lcm, modinv, generate_keypair_ext}
use govis.Paillier.Keygen.Inverse.{modinv_inverse}
use govis.Paillier.Keygen.Keypair.{
  Made, Ends, generate_keypair_ext-Ends, generate_keypair_ext_returns,
}

lcm_6_10 : lcm 6 10 ≡ some 30
unfolding lcm biguint_gcd gcd_loop lt_wf
lcm_6_10 = refl

modinv_inverse_example :
    ((m : ℕ) × (modinv (pos 30) 77 ≡ pos m) × (m ≢ 0) × Congruent 77 (30 * m) 1)
    ⊎ ((modinv (pos 30) 77 ≡ pos 0) × ((b : ℕ) → ¬ Congruent 77 (30 * b) 1))
modinv_inverse_example = modinv_inverse 30 77 (omega arith)

generate_keypair_ext-Ends_example : Ends toy_big (generate_keypair_ext toy_big (5 ∷ 7 ∷ 11 ∷ []))
generate_keypair_ext-Ends_example = generate_keypair_ext-Ends toy_big (5 ∷ 7 ∷ 11 ∷ [])

-- 5 is 1 modulo 4.
generate_keypair_ext_returns_example :
    (kp : PaillierKeypair) × (generate_keypair_ext toy_big (5 ∷ 7 ∷ 11 ∷ []) ≡ ok (7, 11, kp))
    × Made toy_big 7 11 30 kp
generate_keypair_ext_returns_example =
    generate_keypair_ext_returns toy_big (5 ∷ []) 7 11 30 18 [] (refl, tt) refl refl
      (λ e. omega (arith, e)) lcm_6_10 refl
