-- ===== src/Zk/Blum/Verified.antt =====
-- What `verify_blum` accepts.
use govis.Prelude.{
  ℕ, suc, ◌+◌, ◌%◌, ◌≤◌, ◌<◌, some, List, [], ◌∷◌, Bool, true, false, length, arith, ◌≡◌, ◌≢◌, ◌↔◌,
  refl, ap, ◌∙◌, Option-cases, inl, inr,
}
use govis.Prelude.Int.{ℤ}
use govis.Big.{Big}
use govis.Zk.Blum.{BlumProof, root_valid, count_valid, verify_blum}

module _ (big : Big) (sha256 : List ℕ → List ℕ) (n : ℕ) (sid : List ℕ) where
  -- Every bit has an index and a root, and the root is valid.
  abbrev pub AllValid : List ℕ → List Bool → List ℤ → Type 0
  AllValid indices [] roots = Unit
  AllValid (cidx ∷ indices) (bit ∷ bits) (root ∷ roots) =
      (root_valid big sha256 n sid cidx bit root ≡ some true) × AllValid indices bits roots
  AllValid _ (bit ∷ bits) _ = ⊥

  count_all :
      (indices : List ℕ) (bits : List Bool) (roots : List ℤ) (k : ℕ)
      → AllValid indices bits roots
      → count_valid big sha256 n sid indices bits roots k ≡ some (k + length bits)
  unfolding count_valid
  count_all [] [] roots k h = ap some {x = k} {y = k + 0} (omega arith)
  count_all (cidx ∷ indices) [] roots k h = ap some {x = k} {y = k + 0} (omega arith)
  count_all [] (bit ∷ bits) roots k h = absurd h
  count_all (cidx ∷ indices) (bit ∷ bits) [] k h = absurd h
  count_all (cidx ∷ indices) (bit ∷ bits) (root ∷ roots) k (v, h) =
      rw v
        (count_all indices bits roots (k + 1) h ∙ ap some {x = k + 1 + length bits} (omega arith))

  count_le :
      (indices : List ℕ) (bits : List Bool) (roots : List ℤ) (k v : ℕ)
      → count_valid big sha256 n sid indices bits roots k ≡ some v
      → v ≤ k + length bits
  unfolding count_valid
  count_le [] bits roots k v h = ground arith
  count_le (cidx ∷ indices) [] roots k v h = ground arith
  count_le (cidx ∷ indices) (bit ∷ bits) [] k v h = ground arith
  count_le (cidx ∷ indices) (bit ∷ bits) (root ∷ roots) k v h =
      ground (arith, count_le indices bits roots k v, count_le indices bits roots (k + 1) v)

  all_of_count :
      (indices : List ℕ) (bits : List Bool) (roots : List ℤ) (k : ℕ)
      → count_valid big sha256 n sid indices bits roots k ≡ some (k + length bits)
      → AllValid indices bits roots
  unfolding count_valid
  all_of_count [] [] roots k h = tt
  all_of_count (cidx ∷ indices) [] roots k h = tt
  all_of_count [] (bit ∷ bits) roots k h = absurd (ground arith)
  all_of_count (cidx ∷ indices) (bit ∷ bits) [] k h = absurd (ground arith)
  all_of_count (cidx ∷ indices) (bit ∷ bits) (root ∷ roots) k h =
      elim (Option-cases (root_valid big sha256 n sid cidx bit root)) [
        | inl e ↦ absurd (cc (rw e at h))
        | inr (true, e) ↦ (
          e,
          all_of_count indices bits roots (k + 1)
              (rw e at h ∙ ap some {y = k + 1 + length bits} (omega arith)),
        )
        | inr (false, e) ↦
            absurd
              (omega (arith, count_le indices bits roots k (k + suc (length bits)) (rw e at h)))
      ]

  -- The tests of `verify_blum`, for the lists that it counts over.
  accepted_counts :
      (indices : List ℕ) (bits : List Bool) (roots : List ℤ)
      → verify_blum big sha256 n sid
          (record { challenge_indices = indices; bits = bits; roots = roots })
        ≡ some true
      → (n % 4 ≡ 1)
        × (0 < length bits)
        × (count_valid big sha256 n sid indices bits roots 0 ≡ some (0 + length bits))
  unfolding verify_blum
  accepted_counts indices bits roots h = (ground arith, ground arith, ground arith)

  counts_accepted :
      (indices : List ℕ) (bits : List Bool) (roots : List ℤ)
      → n % 4 ≡ 1
      → 0 < length bits
      → count_valid big sha256 n sid indices bits roots 0 ≡ some (0 + length bits)
      → verify_blum big sha256 n sid
          (record { challenge_indices = indices; bits = bits; roots = roots })
        ≡ some true
  unfolding verify_blum
  counts_accepted indices bits roots h pos e = ground arith

  -- `verify_blum` accepts exactly when `n` is 1 modulo 4, there is a bit, and every bit comes with an
  -- index and a root that squares to the challenge of that index (to the negated one for a false bit).
  -- How many bits there are, beyond one, and which indices they name, is not checked.
  pub verify_blum_iff :
      (proof : BlumProof)
      → (verify_blum big sha256 n sid proof ≡ some true) ↔ (
          (n % 4 ≡ 1) × (proof.bits ≢ []) × AllValid proof.challenge_indices proof.bits proof.roots)
  verify_blum_iff proof = (
    λ h.
        let (odd, some_bit, count) =
          accepted_counts proof.challenge_indices proof.bits proof.roots h in
        (
          odd,
          λ e. absurd (omega (arith, some_bit, ap length e)),
          all_of_count proof.challenge_indices proof.bits proof.roots 0 count,
        ),
    λ h.
        counts_accepted proof.challenge_indices proof.bits proof.roots h.0 (positive proof.bits h.1)
          (count_all proof.challenge_indices proof.bits proof.roots 0 h.2),
  )
    where
      positive : (bits : List Bool) → bits ≢ [] → 0 < length bits
      positive [] ne = absurd (ne refl)
      positive (bit ∷ bits) ne = omega arith
