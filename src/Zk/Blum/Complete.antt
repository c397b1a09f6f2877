-- ===== src/Zk/Blum/Complete.antt =====
-- The prover of a Blum modulus, against its verifier.
use govis.Prelude.{
  ℕ, ◌+◌, ◌-◌, ◌*◌, ◌/◌, ◌%◌, ◌^◌, ◌==◌, if◌then◌else◌, none, some, List, [], ◌∷◌, ◌++◌, Bool, true,
  false, ◌&&◌, Bool-cases, length, length-append, range_from, inl, inr, ◌⊎◌, ◌↔◌, ◌≡◌, ◌≢◌, refl,
  ap, ◌∙◌, arith,
}
use govis.Prelude.Int.{ℤ, pos}
use govis.Prelude.Modular.{Congruent, mul_congr}
use govis.Big.{Big}
use govis.Zk.Blum.{
  BlumProof, push, blum_challenge, is_quadratic_residue_mod_prime, sqrt_mod_prime, root_of,
  prove_step, prove_steps, prove_blum, root_valid, verify_blum,
}
use govis.Zk.Blum.Verified.{AllValid, verify_blum_iff}
use govis.Zk.Blum.Roots.{root_mod_prime, modinv_internal_inverse, crt-Congruent, Congruent-product}
use native.Mathlib.Nat.{mul-pos, pow-suc, pow-zero}

module _ (big : Big) (sha256 : List ℕ → List ℕ) (p q b : ℕ) (p_3 : p % 4 ≡ 3) (q_3 : q % 4 ≡ 3)
    (coprime : Congruent q (p * b) 1) where
  open big use {modpow, modpow-pos}

  -- Whether a number meets Euler's criterion.
  residue :
      (a r : ℕ)
      → r % 4 ≡ 3
      → is_quadratic_residue_mod_prime big sha256 a r ≡ some (a ^ ((r - 1) / 2) % r + 0 == 1 + 0)
  unfolding is_quadratic_residue_mod_prime
  residue a r h = rw (modpow-pos a ((r - 1) / 2) r (omega arith)) refl

  root_mod :
      (a r : ℕ) → r % 4 ≡ 3 → sqrt_mod_prime big sha256 a r ≡ some (pos (a ^ ((r + 1) / 4) % r))
  unfolding sqrt_mod_prime
  root_mod a r h = modpow-pos a ((r + 1) / 4) r (omega arith)

  -- The search for a root does not panic, and what it finds is one.
  root_of-square :
      (a : ℕ)
      → (root_of big sha256 p q (p * q) a ≡ some none)
        ⊎ ((x : ℕ) × (root_of big sha256 p q (p * q) a ≡ some (some (pos x)))
            × Congruent (p * q) (x * x) a)
  unfolding root_of
  root_of-square a = elim (Bool-cases (in_p && in_q)) [
    | inr e ↦
        inl (rw (residue a p p_3, residue a q q_3, root_mod a p p_3, root_mod a q q_3, e) refl)
    | inl e ↦
        let (m, inv, inverse) = modinv_internal_inverse p q b (omega arith) coprime in
        let (x, c, xp, xq) =
          crt-Congruent (a ^ ((p + 1) / 4) % p) (a ^ ((q + 1) / 4) % q) p q m (omega arith)
            (omega arith) inv inverse in
        inr (
          x,
          rw (residue a p p_3, residue a q q_3, root_mod a p p_3, root_mod a q q_3, e, c) refl,
          Congruent-product p q m (x * x) a (omega arith) inverse
              (mul_congr p x _ x _ xp xp ∙ root_mod_prime a p p_3 (ground (arith, e)))
              (mul_congr q x _ x _ xq xq ∙ root_mod_prime a q q_3 (ground (arith, e))),
        )
  ]
    where
      in_p : Bool
      in_p = a ^ ((p - 1) / 2) % p + 0 == 1 + 0

      in_q : Bool
      in_q = a ^ ((q - 1) / 2) % q + 0 == 1 + 0

  module _ (sid : List ℕ) where
    -- The three lists go together, and every root is valid.
    abbrev Good : BlumProof → Type 0
    Good proof =
        (length proof.challenge_indices ≡ length proof.bits)
        × (length proof.roots ≡ length proof.bits)
        × AllValid big sha256 (p * q) sid proof.challenge_indices proof.bits proof.roots

    AllValid-append :
        (indices : List ℕ) (bits : List Bool) (roots : List ℤ) (i : ℕ) (bit : Bool) (root : ℤ)
        → length indices ≡ length bits
        → length roots ≡ length bits
        → AllValid big sha256 (p * q) sid indices bits roots
        → root_valid big sha256 (p * q) sid i bit root ≡ some true
        → AllValid big sha256
            (p * q)
            sid
            (indices ++ (i ∷ []))
            (bits ++ (bit ∷ []))
            (roots ++ (root ∷ []))
    AllValid-append [] [] [] i bit root e f h v = (v, tt)
    AllValid-append [] [] (r ∷ roots) i bit root e f h v = absurd (omega (arith, f))
    AllValid-append (j ∷ indices) [] roots i bit root e f h v = absurd (omega (arith, e))
    AllValid-append [] (c ∷ bits) roots i bit root e f h v = absurd h
    AllValid-append (j ∷ indices) (c ∷ bits) [] i bit root e f h v = absurd h
    AllValid-append (j ∷ indices) (c ∷ bits) (r ∷ roots) i bit root e f (w, h) v =
        (w, AllValid-append indices bits roots i bit root (omega (arith, e)) (omega (arith, f)) h v)

    push-Good :
        (proof : BlumProof) (i : ℕ) (bit : Bool) (root : ℤ)
        → Good proof
        → root_valid big sha256 (p * q) sid i bit root ≡ some true
        → Good (push i bit (some root) proof)
    unfolding push
    push-Good proof i bit root (e, f, h) v = (
      omega (
        arith,
        e,
        length-append proof.challenge_indices (i ∷ []),
        length-append proof.bits (bit ∷ []),
      ),
      omega (arith, f, length-append proof.roots (root ∷ []), length-append proof.bits (bit ∷ [])),
      AllValid-append proof.challenge_indices proof.bits proof.roots i bit root e f h v,
    )

    root_valid-square :
        (i : ℕ) (bit : Bool) (x : ℕ)
        → (let c = blum_challenge big sha256 sid (p * q) i % (p * q) in
            Congruent (p * q) (x * x) (if bit then c else p * q - c))
        → root_valid big sha256 (p * q) sid i bit (pos x) ≡ some true
    unfolding root_valid
    root_valid-square i bit x h =
        rw (modpow-pos x 2 (p * q) (mul-pos (omega arith) (omega arith)))
          (ap some (same (x ^ 2 % (p * q)) _ (ap (λ t. t % (p * q)) square ∙ h)))
      where
        same : (u v : ℕ) → u ≡ v → (u + 0 == v + 0) ≡ true
        same u v e = ground (arith, e)

        square : x ^ 2 ≡ x * x
        square = pow-suc x 1 ∙ ap (λ t. t * x) (pow-suc x 0 ∙ rw (pow-zero x) (omega arith))

    prove_step-Good :
        (i : ℕ) (proof : BlumProof)
        → Good proof
        → (next : BlumProof) × (prove_step big sha256 p q (p * q) sid i proof ≡ some next)
          × Good next
    unfolding prove_step push
    prove_step-Good i proof good = elim (root_of-square c) [
      | inr (x, e, square) ↦ (
        push i true (some (pos x)) proof,
        rw e refl,
        push-Good proof i true (pos x) good (root_valid-square i true x square),
      )
      | inl e ↦ elim (root_of-square (p * q - c)) [
        | inl f ↦ (proof, rw (e, f) refl, good)
        | inr (x, f, square) ↦ (
          push i false (some (pos x)) proof,
          rw (e, f) refl,
          push-Good proof i false (pos x) good (root_valid-square i false x square),
        )
      ]
    ]
      where
        c : ℕ
        c = blum_challenge big sha256 sid (p * q) i % (p * q)

    prove_steps-Good :
        (iterations : List ℕ) (proof : BlumProof)
        → Good proof
        → (final : BlumProof) × (prove_steps big sha256 p q (p * q) sid iterations proof
            ≡ some final)
          × Good final
    unfolding prove_steps
    prove_steps-Good [] proof good = (proof, refl, good)
    prove_steps-Good (i ∷ iterations) proof good =
        let (next, e, good') = prove_step-Good i proof good in
        let (final, f, good'') = prove_steps-Good iterations next good' in
        (final, rw (e, f) refl, good'')

    -- For factors that are 3 modulo 4, of which the first has an inverse modulo the second: the prover
    -- does not panic, and the verifier accepts the proof if and only if it has a root at all, that is, if
    -- one of the 128 challenges or its negation met Euler's criterion for both factors.
    pub prove_blum-accepted :
        (proof : BlumProof) × (prove_blum big sha256 p q (p * q) sid ≡ some proof)
        × ((verify_blum big sha256 (p * q) sid proof ≡ some true) ↔ (proof.bits ≢ []))
    unfolding prove_blum
    prove_blum-accepted =
        let (proof, e, (sizes, sizes', valid)) =
          prove_steps-Good (range_from 0 128)
            (record { challenge_indices = []; bits = []; roots = [] }) (refl, refl, tt) in
        let (only, accepts) = verify_blum_iff big sha256 (p * q) sid proof in
        (proof, e, (λ h. (only h).1, λ ne. accepts (one_mod_4, ne, valid)))
      where
        one_mod_4 : p * q % 4 ≡ 1
        one_mod_4 = mul_congr 4 p 3 q 3 p_3 q_3
