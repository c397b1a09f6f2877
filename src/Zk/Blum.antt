-- ===== src/Zk/Blum.antt =====
-- src/paillier_zk.rs: the proof that a modulus is a Blum integer.
pub mod Verified
pub mod Roots
pub mod Complete
use govis.Prelude.{
  ℕ, zero, suc, ◌+◌, ◌-◌, ◌*◌, ◌/◌, ◌%◌, ◌^◌, ◌≤◌, ◌<◌, ltb, ◌==◌, if◌then◌else◌, Option, none,
  some, List, [], ◌∷◌, ◌++◌, Bool, true, false, ◌&&◌, not, length, codes, range_from, arith, ◌≡◌,
}
use govis.Prelude.Int.{ℤ, pos, ◌==ℤ◌, ◌-ℤ◌, ◌+ℤ◌, ◌*ℤ◌, mod_floor, is_neg}
use govis.Prelude.Maybe.{◌>>=◌}
use govis.Prelude.Bytes.{u64_be_bytes}
use govis.Big.{Big}
use govis.Curve.{be_value}
use mathlib.Core.WellFounded.{Acc}
use govis.Prelude.Order.{lt_wf}

pub record BlumProof : Type 0 where
  pub challenge_indices : List ℕ
  pub bits : List Bool
  pub roots : List ℤ

-- One round of the division loops: the old remainder less the quotient times the new one.
pub division_shrinks : (r new_r : ℕ) → 0 < new_r → r - r / new_r * new_r < new_r
division_shrinks r new_r h = omega arith

-- The loop of `modinv_internal`, and of `modinv` in src/paillier.rs: it ends with the factor `t` and the
-- last remainder `r` that is not zero.
unfoldable pub modinv_loop : ℤ → ℤ → ℕ → (new_r : ℕ) → Acc ◌<◌ new_r → ℤ × ℕ
modinv_loop t new_t r zero w = (t, r)
modinv_loop t new_t r (suc k) (Acc.intro _ smaller) =
    let quotient = r / suc k in
    modinv_loop new_t (t -ℤ pos quotient *ℤ new_t) (suc k) (r - quotient * suc k)
      (smaller (r - quotient * suc k) (division_shrinks r (suc k) (omega arith)))

-- By a modulus that is positive, as a public key's is.
unfoldable pub modinv_internal : ℤ → ℕ → ℤ
unfolding lt_wf
modinv_internal a m =
    let t = (modinv_loop (pos 0) (pos 1) m (mod_floor a m) (lt_wf.apply (mod_floor a m))).0 in
    if is_neg t then t +ℤ pos m else t

unfoldable pub crt : ℤ → ℕ → ℤ → ℕ → ℕ → ℤ
crt a p b q n =
    let diff = mod_floor (b -ℤ a) n in
    let p_inv_q = modinv_internal (pos p) q in
    let t = mod_floor (pos diff *ℤ p_inv_q) q in pos (mod_floor (a +ℤ pos p *ℤ pos t) n)

-- The three `push` calls that a root leads to.
unfoldable pub push : ℕ → Bool → Option ℤ → BlumProof → BlumProof
push i bit none proof = proof
push i bit (some root) proof = record {
  challenge_indices = proof.challenge_indices ++ (i ∷ []);
  bits = proof.bits ++ (bit ∷ []);
  roots = proof.roots ++ (root ∷ []);
}

module _ (big : Big) (sha256 : List ℕ → List ℕ) where
  open big use {modpow, to_bytes_be}

  unfoldable pub blum_challenge : List ℕ → ℕ → ℕ → ℕ
  blum_challenge sid n iteration =
      be_value (sha256 (codes "govis-blum" ++ (sid ++ (to_bytes_be n ++ u64_be_bytes iteration))))

  unfoldable pub is_quadratic_residue_mod_prime : ℕ → ℕ → Option Bool
  is_quadratic_residue_mod_prime a p = do
    res ← modpow (pos a) (pos ((p - 1) / 2)) (pos p)
    some (res ==ℤ pos 1)

  unfoldable pub sqrt_mod_prime : ℕ → ℕ → Option ℤ
  sqrt_mod_prime a p = modpow (pos a) (pos ((p + 1) / 4)) (pos p)

  -- A square root of `a` modulo n = p q, if `a` is a square modulo both primes.
  unfoldable pub root_of : ℕ → ℕ → ℕ → ℕ → Option (Option ℤ)
  root_of p q n a = do
    qr_p ← is_quadratic_residue_mod_prime a p
    qr_q ← is_quadratic_residue_mod_prime a q
    let root = (do
      sqrt_p ← sqrt_mod_prime a p
      sqrt_q ← sqrt_mod_prime a q
      some (some (crt sqrt_p p sqrt_q q n)))
    if qr_p && qr_q then root else some none

  -- One iteration of the prover: the index with its bit and root, if there is a root.
  unfoldable pub prove_step : ℕ → ℕ → ℕ → List ℕ → ℕ → BlumProof → Option BlumProof
  prove_step p q n sid i proof = do
    let c_mod_n = blum_challenge sid n i % n
    found ← root_of p q n c_mod_n
    let negated = (do found_neg ← root_of p q n (n - c_mod_n); some (push i false found_neg proof))
    elim found [ some root ↦ some (push i true (some root) proof) | none ↦ negated ]

  unfoldable pub prove_steps : ℕ → ℕ → ℕ → List ℕ → List ℕ → BlumProof → Option BlumProof
  prove_steps p q n sid [] proof = some proof
  prove_steps p q n sid (i ∷ iterations) proof = do
    next ← prove_step p q n sid i proof
    prove_steps p q n sid iterations next

  unfoldable pub prove_blum : ℕ → ℕ → ℕ → List ℕ → Option BlumProof
  prove_blum p q n sid =
      prove_steps p q n sid (range_from 0 128)
        (record { challenge_indices = []; bits = []; roots = [] })

  -- Whether a root squares to the challenge of its index, or to the negated challenge.
  unfoldable pub root_valid : ℕ → List ℕ → ℕ → Bool → ℤ → Option Bool
  root_valid n sid cidx bit root = do
    let c_mod = blum_challenge sid n cidx % n
    let expected = (if bit then c_mod else n - c_mod) % n
    root_sq ← modpow root (pos 2) (pos n)
    some (root_sq ==ℤ pos expected)

  -- The loop over the three lists zipped together, which counts the valid roots.
  unfoldable pub count_valid : ℕ → List ℕ → List ℕ → List Bool → List ℤ → ℕ → Option ℕ
  count_valid n sid (cidx ∷ indices) (bit ∷ bits) (root ∷ roots) valid_count = do
    valid ← root_valid n sid cidx bit root
    count_valid n sid indices bits roots (if valid then valid_count + 1 else valid_count)
  count_valid n sid _ _ _ valid_count = some valid_count

  unfoldable pub verify_blum : ℕ → List ℕ → BlumProof → Option Bool
  verify_blum n sid proof =
      let counted = (do
        valid_count ← count_valid n sid proof.challenge_indices proof.bits proof.roots 0
        some (ltb 0 valid_count && valid_count == length proof.bits)) in
      if n % 2 == 0 then some false else if n % 4 == 1 then counted else some false
