-- ===== src/Zk/Range/Forged.antt =====
-- The range proof that the multiplication protocol sends in place of a real one.
use govis.Prelude.{
  ℕ, zero, suc, ◌+◌, ◌*◌, ◌%◌, ◌^◌, ◌<◌, ◌≡◌, ap, ◌∙◌, arith, some, List, true, ==_refl,
}
use govis.Prelude.Int.{pos, nat_abs}
use govis.Big.{Big}
use govis.Paillier.{PaillierPublicKey}
use govis.Paillier.Arithmetic.{rem?-pos}
use govis.Zk.Range.{RangeProof, range_challenge, verify_range}
use govis.Zk.Range.Complete.{in_range, g_pow-pos}
use native.Mathlib.Nat.{pow-suc, mul-zero, zero-mul}

-- A commitment and a response of zero.
abbrev pub zero_proof : ℕ → RangeProof
zero_proof z = record { c_alpha = pos 0; z = pos z; s = pos 0 }

pub zero_pow_mod : (n d : ℕ) → 0 < n → 0 < d → 0 ^ n % d ≡ 0
zero_pow_mod zero d hn hd = elim hn [ ]
zero_pow_mod (suc n) d hn hd = ap (λ t. t % d) (pow-suc 0 n ∙ mul-zero (0 ^ n)) ∙ omega arith

module _ (big : Big) (sha256 : List ℕ → List ℕ) where
  open big use {modpow-pos, bits}

  -- `verify_range` accepts the proof with the commitment 0 and the response 0, and any `z` in range, for
  -- every ciphertext `c` that is not negative, under every key with positive `n` and `n_sq`.
  pub verify_range-forged :
      (pk : PaillierPublicKey) (c ell z : ℕ) (sid : List ℕ)
      → 0 < pk.n
      → 0 < pk.n_sq
      → z < 2 ^ (ell + 256 + bits pk.n + 1)
      → verify_range big sha256 pk (pos c) ell sid (zero_proof z) ≡ some true
  unfolding verify_range range_challenge
  verify_range-forged pk c ell z sid hn hd hz =
      rw
        (
          in_range (ell + 256 + bits pk.n + 1) z hz,
          modpow-pos c (nat_abs (range_challenge big sha256 sid pk.n pk.g ell (pos c) (pos 0)))
              pk.n_sq hd,
          rem?-pos
              (0
                * (c ^ nat_abs (range_challenge big sha256 sid pk.n pk.g ell (pos c) (pos 0))
                    % pk.n_sq))
              pk.n_sq hd,
          g_pow-pos z pk.n pk.n_sq hd,
          modpow-pos 0 pk.n pk.n_sq hd,
          zero_pow_mod pk.n pk.n_sq hn hd,
          rem?-pos ((1 + z * pk.n) % pk.n_sq * 0) pk.n_sq hd,
          mul-zero ((1 + z * pk.n) % pk.n_sq),
          zero-mul (
              c ^ nat_abs (range_challenge big sha256 sid pk.n pk.g ell (pos c) (pos 0)) % pk.n_sq),
        )
        (ap some (==_refl (0 % pk.n_sq + 0)))
