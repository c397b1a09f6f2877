-- ===== src/Zk/Blum/Roots.antt =====
-- The square roots that the prover of a Blum modulus computes.
use govis.Prelude.{
  ℕ, zero, suc, ◌+◌, ◌-◌, ◌*◌, ◌/◌, ◌%◌, ◌^◌, ◌≤◌, ◌<◌, ltb, leb, Bool-cases, inl, inr, ◌≡◌, refl,
  sym, ap, ◌∙◌, arith,
}
use govis.Prelude.Int.{ℤ, pos, negsuc, ◌-ℤ◌, mod_floor}
use govis.Prelude.Modular.{Congruent, mul_congr, add_congr, mul-mod-mod, pow-add}
use govis.Prelude.Order.{lt_wf}
use govis.Zk.Blum.{modinv_loop, modinv_internal, crt}
use govis.Paillier.Keygen.{modinv}
use govis.Paillier.Keygen.Inverse.{modinv_inverse}
use Prim.Native.Nat.{◌∣◌}
use native.Mathlib.Nat.{
  mod-mod, mod-mod_of_dvd, dvd-mul_right, dvd-mul_left, add-mul-mod_self_left, mod-add-div, mul-pos,
  mod-eq_of_lt, mod-add-mod, mod-lt, pow-zero, pow-suc,
}

-- Congruent by a multiple of the modulus.
Congruent-factor : (c n x y : ℕ) → c ∣ n → Congruent n x y → Congruent c x y
Congruent-factor c n x y d e = sym (mod-mod_of_dvd c x d) ∙ ap (λ t. t % c) e ∙ mod-mod_of_dvd c y d

-- Euler's criterion gives the root: for p = 3 mod 4, if a ^ ((p - 1) / 2) is 1, then a ^ ((p + 1) / 4)
-- is a square root of a.
pub root_mod_prime :
    (a p : ℕ)
    → p % 4 ≡ 3
    → a ^ ((p - 1) / 2) % p ≡ 1
    → Congruent p (a ^ ((p + 1) / 4) % p * (a ^ ((p + 1) / 4) % p)) a
root_mod_prime a p h e =
    mul_congr p _ _ _ _ (mod-mod (a ^ k) p) (mod-mod (a ^ k) p)
    ∙ ap (λ t. t % p)
        (sym (pow-add a k k)
          ∙ ap (λ t. a ^ t) {x = k + k} {y = (p - 1) / 2 + 1} (omega arith)
          ∙ pow-add a ((p - 1) / 2) 1)
    ∙ mul_congr p (a ^ ((p - 1) / 2)) 1 (a ^ 1) a (e ∙ sym one_mod)
        (ap (λ t. t % p) (pow-suc a 0 ∙ rw (pow-zero a) (omega arith)))
    ∙ ap (λ t. t % p) {x = 1 * a} {y = a} (omega arith)
  where
    k : ℕ
    k = (p + 1) / 4

    one_mod : 1 % p ≡ 1
    one_mod = mod-eq_of_lt {n = 1} {m = p} (omega arith)

-- `modinv_internal` is an inverse, where there is one.
pub modinv_internal_inverse :
    (p q b : ℕ)
    → 1 < q
    → Congruent q (p * b) 1
    → (m : ℕ) × (modinv_internal (pos p) q ≡ pos m) × Congruent q (p * m) 1
unfolding modinv_internal modinv lt_wf
modinv_internal_inverse p q b h e = elim (modinv_inverse p q h) [
  | inr (z, none_left) ↦ absurd (none_left b e)
  | inl (m, f, ne, inverse) ↦ elim (Bool-cases (ltb 1 last.1)) [
    | inl big ↦ absurd (ne (pos_inj (sym (rw big at f))))
    | inr small ↦ (m, rw small at f, inverse)
  ]
]
  where
    last : ℤ × ℕ
    last = modinv_loop (pos 0) (pos 1) q (p % q) (lt_wf.apply (p % q))

    pos_inj : {x y : ℕ} → pos x ≡ pos y → x ≡ y
    pos_inj g = ap (λ z. elim z [ pos k ↦ k | negsuc k ↦ 0 ]) g

-- `(b - a).mod_floor(n)` is b - a modulo n.
difference : (a b n : ℕ) → 0 < n → Congruent n (mod_floor (pos b -ℤ pos a) n + a) b
difference zero b n h =
    ap (λ t. t % n) {x = (b + 0) % n + 0} {y = (b + 0) % n} (omega arith)
    ∙ mod-mod (b + 0) n
    ∙ ap (λ t. t % n) {x = b + 0} {y = b} (omega arith)
difference (suc a) b n h = elim (Bool-cases (leb (suc a) b)) [
  | inl e ↦ rw e (
      mod-add-mod (b - suc a) n (suc a)
      ∙ ap (λ t. t % n) {x = b - suc a + suc a} {y = b} (ground (arith, e)))
  | inr e ↦ rw e (
      mod-add-mod (n - k % n) n (suc a)
      ∙ ap (λ t. t % n) {x = n - k % n + suc a} {y = b + n * (1 + k / n)}
          (ground (arith, e, mod-lt k h, mod-add-div k n))
      ∙ add-mul-mod_self_left b n (1 + k / n))
]
  where
    k : ℕ
    k = suc (suc a - b - 1)

-- `crt` combines numbers modulo p and q.
pub crt-Congruent :
    (a b p q m : ℕ)
    → 0 < p
    → 0 < q
    → modinv_internal (pos p) q ≡ pos m
    → Congruent q (p * m) 1
    → (x : ℕ) × (crt (pos a) p (pos b) q (p * q) ≡ pos x) × Congruent p x a × Congruent q x b
unfolding crt
crt-Congruent a b p q m hp hq e inverse = (
  (a + p * (d * m % q)) % (p * q),
  rw e refl,
  mod-mod_of_dvd p (a + p * (d * m % q)) (dvd-mul_right p q)
      ∙ add-mul-mod_self_left a p (d * m % q),
  mod-mod_of_dvd q (a + p * (d * m % q)) (dvd-mul_left q p)
      ∙ add_congr q a a (p * (d * m % q)) d refl (
          mul-mod-mod p (d * m) q
          ∙ ap (λ t. t % q) {x = p * (d * m)} {y = p * m * d} (omega arith)
          ∙ mul_congr q (p * m) 1 d d inverse refl
          ∙ ap (λ t. t % q) {x = 1 * d} {y = d} (omega arith))
      ∙ ap (λ t. t % q) {x = a + d} {y = d + a} (omega arith)
      ∙ Congruent-factor q (p * q) _ _ (dvd-mul_left q p) (difference a b (p * q) (mul-pos hp hq)),
)
  where
    d : ℕ
    d = mod_floor (pos b -ℤ pos a) (p * q)

-- A multiple of p that is 0 modulo q is 0 modulo p q, if p has an inverse modulo q.
multiple_added :
    (p q m x k : ℕ)
    → 0 < q
    → Congruent q (p * m) 1
    → Congruent q (x + p * k) x
    → Congruent (p * q) (x + p * k) x
multiple_added p zero m x k h inverse e = elim h [ ]
multiple_added p (suc q) m x k h inverse e =
    ap (λ t. t % (p * suc q)) {x = x + p * k} {y = x + p * suc q * (k / suc q)}
      (omega (arith, ap (λ (t : ℕ). p * t) {x = k} {y = suc q * (k / suc q)} whole))
    ∙ add-mul-mod_self_left x (p * suc q) (k / suc q)
  where
    multiple : Congruent (suc q) (p * k) 0
    multiple =
        sym (add-mul-mod_self_left (p * k) (suc q) x)
        ∙ ap (λ t. t % suc q) {x = p * k + suc q * x} {y = q * x + (x + p * k)} (omega arith)
        ∙ add_congr (suc q) (q * x) (q * x) (x + p * k) x refl e
        ∙ ap (λ t. t % suc q) {x = q * x + x} {y = 0 + suc q * x} (omega arith)
        ∙ add-mul-mod_self_left 0 (suc q) x

    vanishes : Congruent (suc q) k 0
    vanishes =
        ap (λ t. t % suc q) {x = k} {y = 1 * k} (omega arith)
        ∙ mul_congr (suc q) 1 (p * m) k k (sym inverse) refl
        ∙ ap (λ t. t % suc q) {x = p * m * k} {y = m * (p * k)} (omega arith)
        ∙ mul_congr (suc q) m m (p * k) 0 refl multiple
        ∙ ap (λ t. t % suc q) {x = m * 0} {y = 0} (omega arith)

    whole : k ≡ suc q * (k / suc q)
    whole = omega (arith, mod-add-div k (suc q), vanishes, mod-eq_of_lt {n = 0} {m = suc q} h)

-- The Chinese remainder theorem, for congruences.
pub Congruent-product :
    (p q m x y : ℕ)
    → 0 < q
    → Congruent q (p * m) 1
    → Congruent p x y
    → Congruent q x y
    → Congruent (p * q) x y
Congruent-product p q m x y h inverse ep eq = elim (Bool-cases (leb (x / p) (y / p))) [
  | inl e ↦
      let more : y ≡ x + p * (y / p - x / p) = raised x y ep (ground (arith, e)) in
      sym (
        ap (λ t. t % (p * q)) more
        ∙ multiple_added p q m x (y / p - x / p) h inverse (sym (ap (λ t. t % q) more) ∙ sym eq))
  | inr e ↦
      let more : x ≡ y + p * (x / p - y / p) = raised y x (sym ep) (ground (arith, e)) in
      ap (λ t. t % (p * q)) more
      ∙ multiple_added p q m y (x / p - y / p) h inverse (sym (ap (λ t. t % q) more) ∙ eq)
]
  where
    raised : (u v : ℕ) → Congruent p u v → u / p ≤ v / p → v ≡ u + p * (v / p - u / p)
    raised u v e l = omega (
      arith,
      mod-add-div u p,
      mod-add-div v p,
      e,
      ap (λ (t : ℕ). p * t) {x = v / p} {y = u / p + (v / p - u / p)} (omega (arith, l)),
    )
