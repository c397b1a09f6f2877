-- ===== src/Curve/Laws.antt =====
-- Consequences of the laws of `Curve`: the field and the group of points.
use govis.Prelude.{ℕ, zero, suc, ◌+◌, ◌*◌, ap₂, arith, ◌≡◌, ◌≢◌, sym, ap, ◌∙◌, ◌≡⟨◌⟩◌, ◌∎, some}
use govis.Curve.{Curve, be_value}

module _ (c : Curve) where
  open c use {
    Scalar, Point, zero_s, one_s, add, sub, mul, neg, invert, padd, identity, scale, add_assoc,
    add_comm, zero-add, add-neg, sub_def, mul_assoc, mul_comm, one-mul, mul-add, mul-invert,
    invert_some, invert-zero, from_nat, from_nat-zero, from_nat-suc, to_be_bytes,
    from_be_bytes-be_value, from-to_be_bytes, padd_assoc, padd_comm, identity-padd, scale-zero,
    scale-add, one-ne-zero,
  }

  pub add-zero : (a : Scalar) → add a zero_s ≡ a
  add-zero a = add_comm a zero_s ∙ zero-add a

  pub add_left_comm : (a b d : Scalar) → add a (add b d) ≡ add b (add a d)
  add_left_comm a b d = sym (add_assoc a b d) ∙ ap (λ t. add t d) (add_comm a b) ∙ add_assoc b a d

  pub mul_left_comm : (a b d : Scalar) → mul a (mul b d) ≡ mul b (mul a d)
  mul_left_comm a b d = sym (mul_assoc a b d) ∙ ap (λ t. mul t d) (mul_comm a b) ∙ mul_assoc b a d

  pub mul-one : (a : Scalar) → mul a one_s ≡ a
  mul-one a = mul_comm a one_s ∙ one-mul a

  pub add-mul : (a b d : Scalar) → mul (add a b) d ≡ add (mul a d) (mul b d)
  add-mul a b d = simp (mul_comm, mul-add)

  pub add_cancel : (a b d : Scalar) → add a b ≡ add a d → b ≡ d
  add_cancel a b d p =
      b
      ≡⟨ undo b ⟩ add (neg a) (add a b)
      ≡⟨ ap (add (neg a)) p ⟩ add (neg a) (add a d)
      ≡⟨ sym (undo d) ⟩ d ∎
    where
      undo : (x : Scalar) → x ≡ add (neg a) (add a x)
      undo x =
          sym (zero-add x)
          ∙ ap (λ t. add t x) (sym (add-neg a) ∙ add_comm a (neg a))
          ∙ add_assoc (neg a) a x

  pub mul-zero : (a : Scalar) → mul a zero_s ≡ zero_s
  mul-zero a =
      add_cancel (mul a zero_s) (mul a zero_s) zero_s (
        sym (mul-add a zero_s zero_s)
        ∙ ap (mul a) (zero-add zero_s)
        ∙ sym (add-zero (mul a zero_s)))

  pub zero-mul : (a : Scalar) → mul zero_s a ≡ zero_s
  zero-mul a = mul_comm zero_s a ∙ mul-zero a

  pub mul-neg : (a b : Scalar) → mul a (neg b) ≡ neg (mul a b)
  mul-neg a b =
      add_cancel (mul a b) (mul a (neg b)) (neg (mul a b))
        (sym (mul-add a b (neg b)) ∙ ap (mul a) (add-neg b) ∙ mul-zero a ∙ sym (add-neg (mul a b)))

  pub sub_self : (a : Scalar) → sub a a ≡ zero_s
  sub_self a = sub_def a a ∙ add-neg a

  pub sub-add_cancel : (a b : Scalar) → add (sub a b) b ≡ a
  sub-add_cancel a b =
      ap (λ t. add t b) (sub_def a b)
      ∙ add_assoc a (neg b) b
      ∙ ap (add a) (add_comm (neg b) b ∙ add-neg b)
      ∙ add-zero a

  pub eq_of_sub-eq-zero : (a b : Scalar) → sub a b ≡ zero_s → a ≡ b
  eq_of_sub-eq-zero a b p = sym (sub-add_cancel a b) ∙ ap (λ t. add t b) p ∙ zero-add b

  pub mul-sub : (a b d : Scalar) → mul a (sub b d) ≡ sub (mul a b) (mul a d)
  mul-sub a b d =
      ap (mul a) (sub_def b d)
      ∙ mul-add a b (neg d)
      ∙ ap (add (mul a b)) (mul-neg a d)
      ∙ sym (sub_def (mul a b) (mul a d))

  -- A scalar with an inverse cancels.
  pub mul_cancel : (a b x y : Scalar) → invert a ≡ some b → mul a x ≡ mul a y → x ≡ y
  mul_cancel a b x y e p =
      x ≡⟨ undo x ⟩ mul b (mul a x) ≡⟨ ap (mul b) p ⟩ mul b (mul a y) ≡⟨ sym (undo y) ⟩ y ∎
    where
      undo : (z : Scalar) → z ≡ mul b (mul a z)
      undo z =
          sym (one-mul z)
          ∙ ap (λ t. mul t z) (sym (mul-invert a b e) ∙ mul_comm a b)
          ∙ mul_assoc b a z

  pub invert-ne-zero : (a b : Scalar) → invert a ≡ some b → a ≢ zero_s
  invert-ne-zero a b e z = cc (e, ap invert z, invert-zero)

  -- The product of two scalars that are not zero is not zero.
  pub mul-ne-zero : (a b : Scalar) → a ≢ zero_s → b ≢ zero_s → mul a b ≢ zero_s
  mul-ne-zero a b p q z =
      let (a', e) = invert_some a p in q (mul_cancel a a' b zero_s e (z ∙ sym (mul-zero a)))

  pub from_nat-add : (a b : ℕ) → from_nat (a + b) ≡ add (from_nat a) (from_nat b)
  from_nat-add zero b =
      ap from_nat {x = 0 + b} {y = b} (omega arith)
      ∙ sym (zero-add (from_nat b))
      ∙ ap (λ t. add t (from_nat b)) (sym from_nat-zero)
  from_nat-add (suc a) b =
      ap from_nat {x = suc a + b} {y = suc (a + b)} (omega arith)
      ∙ from_nat-suc (a + b)
      ∙ ap (add one_s) (from_nat-add a b)
      ∙ sym (add_assoc one_s _ _)
      ∙ ap (λ t. add t (from_nat b)) (sym (from_nat-suc a))

  pub from_nat-mul : (a b : ℕ) → from_nat (a * b) ≡ mul (from_nat a) (from_nat b)
  from_nat-mul zero b =
      ap from_nat {x = 0 * b} {y = 0} (omega arith)
      ∙ from_nat-zero
      ∙ sym (zero-mul (from_nat b))
      ∙ ap (λ t. mul t (from_nat b)) (sym from_nat-zero)
  from_nat-mul (suc a) b =
      ap from_nat {x = suc a * b} {y = b + a * b} (omega arith)
      ∙ from_nat-add b (a * b)
      ∙ ap₂ add (sym (one-mul (from_nat b))) (from_nat-mul a b)
      ∙ sym (add-mul one_s (from_nat a) (from_nat b))
      ∙ ap (λ t. mul t (from_nat b)) (sym (from_nat-suc a))

  -- A scalar is the number that its bytes stand for.
  pub from_nat-be_value : (s : Scalar) → from_nat (be_value (to_be_bytes s)) ≡ s
  from_nat-be_value s = sym (from_be_bytes-be_value (to_be_bytes s)) ∙ from-to_be_bytes s

  pub padd-identity : (p : Point) → padd p identity ≡ p
  padd-identity p = padd_comm p identity ∙ identity-padd p

  pub padd_left_comm : (p q r : Point) → padd p (padd q r) ≡ padd q (padd p r)
  padd_left_comm p q r =
      sym (padd_assoc p q r) ∙ ap (λ t. padd t r) (padd_comm p q) ∙ padd_assoc q p r

  -- Adding the same point on both sides can be undone.
  pub padd_cancel : (g p q : Point) (a : Scalar) → padd (scale g a) p ≡ padd (scale g a) q → p ≡ q
  padd_cancel g p q a e =
      p
      ≡⟨ undo p ⟩ padd (scale g (neg a)) (padd (scale g a) p)
      ≡⟨ ap (padd (scale g (neg a))) e ⟩ padd (scale g (neg a)) (padd (scale g a) q)
      ≡⟨ sym (undo q) ⟩ q ∎
    where
      undo : (x : Point) → x ≡ padd (scale g (neg a)) (padd (scale g a) x)
      undo x =
          sym (identity-padd x)
          ∙ ap (λ t. padd t x)
              (sym (scale-zero g)
                ∙ ap (scale g) (sym (add-neg a) ∙ add_comm a (neg a))
                ∙ scale-add g (neg a) a)
          ∙ padd_assoc _ _ x

pub ruleset ring_sort = (add_left_comm, mul_left_comm)
