-- ===== src/Paillier/Keygen/Inverse.antt =====
-- What the modular inverse of the key generation computes.
use govis.Prelude.{
  ℕ, zero, suc, ◌+◌, ◌-◌, ◌*◌, ◌/◌, ◌%◌, ◌≤◌, ◌<◌, ltb, leb, if◌then◌else◌, Bool-cases, inl, inr,
  ◌⊎◌, ◌≡◌, ◌≢◌, refl, sym, ap, ◌∙◌, arith, true, false,
}
use govis.Prelude.Int.{ℤ, pos, negsuc, ◌+ℤ◌, ◌-ℤ◌, ◌*ℤ◌, neg_ℤ, pos_part, neg_part, is_neg}
use govis.Prelude.Modular.{Congruent, mod-mul-mod}
use govis.Prelude.Order.{lt_wf}
use govis.Zk.Blum.{modinv_loop, division_shrinks}
use govis.Paillier.Keygen.{modinv}
use mathlib.Core.WellFounded.{Acc}
use Prim.Native.Nat.{◌∣◌}
use mathlib.Core.Path.{subst}
use native.Mathlib.Nat.{
  dvd_refl, dvd-zero, dvd-add, dvd-mul_left_of_dvd, mul-le-mul_right, mul-le-mul_left, mod-eq_of_lt,
  add-mul-mod_self_left, eq-one_of_dvd-one, dvd-mod_iff, dvd-mul_right_of_dvd,
}

neg-parts : (z : ℤ) → (pos_part (neg_ℤ z) ≡ neg_part z) × (neg_part (neg_ℤ z) ≡ pos_part z)
neg-parts (pos zero) = (refl, refl)
neg-parts (pos (suc n)) = (refl, refl)
neg-parts (negsuc n) = (refl, refl)

-- A sum of integers, in parts.
add-parts :
    (x y : ℤ)
    → (pos_part (x +ℤ y) + (neg_part x + neg_part y)
        ≡ neg_part (x +ℤ y) + (pos_part x + pos_part y))
      × (pos_part (x +ℤ y) + neg_part (x +ℤ y)
          ≤ pos_part x + neg_part x + (pos_part y + neg_part y))
add-parts (pos m) (pos n) = (omega arith, omega arith)
add-parts (pos m) (negsuc n) = (ground arith, ground arith)
add-parts (negsuc m) (pos n) = (ground arith, ground arith)
add-parts (negsuc m) (negsuc n) = (omega arith, omega arith)

mul-parts :
    (q : ℕ) (z : ℤ)
    → (pos_part (pos q *ℤ z) ≡ q * pos_part z) × (neg_part (pos q *ℤ z) ≡ q * neg_part z)
mul-parts q (pos n) = (refl, omega arith)
mul-parts q (negsuc n) = let (p, m) = neg-parts (pos (q * suc n)) in (p ∙ omega arith, m)

-- `t - q * new_t`, in parts.
step-parts :
    (t new_t : ℤ) (q : ℕ)
    → (pos_part (t -ℤ pos q *ℤ new_t) + (neg_part t + q * pos_part new_t)
        ≡ neg_part (t -ℤ pos q *ℤ new_t) + (pos_part t + q * neg_part new_t))
      × (pos_part (t -ℤ pos q *ℤ new_t) + neg_part (t -ℤ pos q *ℤ new_t)
          ≤ pos_part t + neg_part t + q * (pos_part new_t + neg_part new_t))
step-parts t new_t q =
    let (sum, bound) = add-parts t (neg_ℤ (pos q *ℤ new_t)) in
    let (np, nm) = neg-parts (pos q *ℤ new_t) in
    let (mp, mm) = mul-parts q new_t in
    (omega (arith, sum, np, nm, mp, mm), omega (arith, bound, np, nm, mp, mm))

-- `t * a` is `r` modulo n, with the multiples of n written out.
Times : ℕ → ℕ → ℤ → ℕ → Type 0
Times n a t r = (u v : ℕ) × (pos_part t * a + u * n ≡ neg_part t * a + r + v * n)

Times-step :
    (n a : ℕ) (t new_t : ℤ) (r new_r q : ℕ)
    → q * new_r ≤ r
    → Times n a t r
    → Times n a new_t new_r
    → Times n a (t -ℤ pos q *ℤ new_t) (r - q * new_r)
unfolding Times
Times-step n a t new_t r new_r q small (u, v, e1) (u1, v1, e2) =
    let parts = (step-parts t new_t q).0 in
    (
      u + q * v1,
      v + q * u1,
      omega (arith, small, e1, ap (λ (x : ℕ). x * a) parts, ap (λ (x : ℕ). q * x) e2),
    )

dvd_recombine : (d q k r : ℕ) → q * k ≤ r → d ∣ r - q * k → d ∣ k → d ∣ r
dvd_recombine d q k r fits d2 d1 =
    subst (λ x. d ∣ x) {x = r - q * k + q * k} {y = r} (omega (arith, fits))
      (dvd-add d d2 (dvd-mul_left_of_dvd d d1 q))

size : ℤ → ℕ
size z = pos_part z + neg_part z

-- What holds of the loop's result: it stands for the last remainder, its size is at most the modulus, and
-- the remainder divides those that the loop started from.
Result : ℕ → ℕ → ℤ × ℕ → ℕ → ℕ → Type 0
Result n a (t, r) r0 new_r0 = Times n a t r × (size t ≤ n) × (0 < r) × (r ∣ r0) × (r ∣ new_r0)

modinv_loop-Result :
    (n a : ℕ) (t new_t : ℤ) (r new_r : ℕ) (w : Acc ◌<◌ new_r)
    → Times n a t r
    → Times n a new_t new_r
    → size t * new_r + size new_t * r ≤ n
    → size t ≤ n
    → 0 < r
    → Result n a (modinv_loop t new_t r new_r w) r new_r
unfolding Result size modinv_loop
modinv_loop-Result n a t new_t r zero w p p' room small h = (p, small, h, dvd_refl r, dvd-zero r)
modinv_loop-Result n a t new_t r (suc k) (Acc.intro _ smaller) p p' room small h =
    let q : ℕ = r / suc k in
    let r' : ℕ = r - q * suc k in
    let fits : q * suc k ≤ r = omega arith in
    let next : ℤ = t -ℤ pos q *ℤ new_t in
    let room' : size new_t * r' + size next * suc k ≤ n = omega (
      arith,
      room,
      fits,
      mul-le-mul_right (suc k) (step-parts t new_t q).1,
      ap (λ (x : ℕ). (pos_part new_t + neg_part new_t) * x) {x = r' + q * suc k} {y = r}
          (omega (arith, fits)),
    ) in
    let small' : size new_t ≤ n =
      omega (arith, room, mul-le-mul_left {m = 1} {n = r} (pos_part new_t + neg_part new_t) h) in
    let rest : ℤ × ℕ =
      modinv_loop new_t next (suc k) r' (smaller r' (division_shrinks r (suc k) (omega arith))) in
    let (e, b, up, d1, d2) =
      modinv_loop-Result n a new_t next (suc k) r'
        (smaller r' (division_shrinks r (suc k) (omega arith))) p'
        (Times-step n a t new_t r (suc k) q fits p p') room' small' (omega arith) in
    (e, b, up, dvd_recombine rest.1 q (suc k) r fits d2 d1, d1)

-- One more than a multiple.
one_of_multiples : (n x u v : ℕ) → x + u * n ≡ 1 + v * n → Congruent n x 1
one_of_multiples n x u v e =
    sym (add-mul-mod_self_left x n u)
    ∙ ap (λ t. t % n) {x = x + n * u} {y = 1 + n * v} (omega (arith, e))
    ∙ add-mul-mod_self_left 1 n v

inverse-ne-zero : (n a m : ℕ) → 1 < n → Congruent n (a * m) 1 → m ≢ 0
inverse-ne-zero n a m h e z =
    let none_left : a * m ≡ 0 = ap (λ t. a * t) z ∙ omega arith in
    let zero_one : 0 ≡ 1 =
      sym (mod-eq_of_lt {n = 0} {m = n} (omega arith))
      ∙ ap (λ t. t % n) (sym none_left)
      ∙ e
      ∙ mod-eq_of_lt h in
    omega (arith, zero_one)

-- A factor of the modulus and of a number with an inverse is 1.
common_factor : (n a b r : ℕ) → 1 < n → r ∣ n → r ∣ a → Congruent n (a * b) 1 → r ≡ 1
common_factor n a b r h dn da e =
    eq-one_of_dvd-one
      (subst (λ t. r ∣ t) (e ∙ mod-eq_of_lt h) ((dvd-mod_iff r dn).1 (dvd-mul_right_of_dvd r da b)))

-- The branches after the loop.
unfoldable finish : ℕ → ℤ × ℕ → ℤ
finish n (t, r) = if ltb 1 r then pos 0 else if is_neg t then t +ℤ pos n else t

finish_inverse :
    (n a : ℕ) (t : ℤ)
    → Times n a t 1
    → size t ≤ n
    → (m : ℕ) × (finish n (t, 1) ≡ pos m) × Congruent n (a * m) 1
unfolding finish Times size
finish_inverse n a (pos k) (u, v, e) small =
    let up : ltb k 0 ≡ false = ground arith in
    (k, rw up refl, one_of_multiples n (a * k) u v (omega (arith, e)))
finish_inverse n a (negsuc k) (u, v, e) small =
    let fits : leb (suc k) n ≡ true = ground (arith, small) in
    let down : ltb 0 (suc k) ≡ true = ground arith in
    (
      n - suc k,
      rw (down, fits) refl,
      one_of_multiples n (a * (n - suc k)) u (v + a) (
          omega (
            arith,
            e,
            ap (λ (x : ℕ). a * x) {x = n - suc k + suc k} {y = n} (omega (arith, small)),
          )),
    )

-- What `modinv` computes, by a modulus above one: 0 for a number without an inverse, and otherwise a
-- number that is not 0 and is an inverse.
pub modinv_inverse :
    (a n : ℕ)
    → 1 < n
    → ((m : ℕ) × (modinv (pos a) n ≡ pos m) × (m ≢ 0) × Congruent n (a * m) 1)
      ⊎ ((modinv (pos a) n ≡ pos 0) × ((b : ℕ) → ¬ Congruent n (a * b) 1))
unfolding modinv Times Result size finish
modinv_inverse a n h =
    let (e, small, up, d1, d2) =
      modinv_loop-Result n (a % n) (pos 0) (pos 1) n (a % n) (lt_wf.apply (a % n))
        (1, 0, omega arith) (0, 0, omega arith) (omega arith) (omega arith) (omega arith) in
    elim (Bool-cases (ltb 1 last.1)) [
      | inl big ↦ inr (
        rw big refl,
        λ b inverse.
            let one : last.1 ≡ 1 =
              common_factor n (a % n) b last.1 h d1 d2 (mod-mul-mod a b n ∙ inverse) in
            ground (arith, big, one),
      )
      | inr other ↦
          let one : last.1 ≡ 1 = ground (arith, other, up) in
          let (m, f, inverse) =
            finish_inverse n (a % n) last.0 (subst (λ r. Times n (a % n) last.0 r) one e) small in
          let inverse' : Congruent n (a * m) 1 = sym (mod-mul-mod a m n) ∙ inverse in
          inl (
            m,
            subst (λ r. finish n (last.0, r) ≡ pos m) (sym one) f,
            inverse-ne-zero n a m h inverse',
            inverse',
          )
    ]
  where
    last : ℤ × ℕ
    last = modinv_loop (pos 0) (pos 1) n (a % n) (lt_wf.apply (a % n))
