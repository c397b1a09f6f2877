-- ===== src/Prelude/Outcomes.antt =====
-- What a fallible computation of the program comes to: a value, a `Result::Err`, or a panic.
use mathlib.Core.Option.{Option, none, some}
use mathlib.Core.Bool.{Bool, true, false}
use mathlib.Core.Path.{◌≡◌, refl, ap, subst}

pub data Outcome {ℓ κ} (E : Type ℓ) (A : Type κ) : Type (ℓ ⊔ κ) where
  ok : A → Outcome E A
  err : E → Outcome E A
  panic : Outcome E A

infixl 5 ◌>>=◌ ◌>>◌
abbrev pub ◌>>=◌ {ℓ κ μ} :
    {E : Type ℓ} {A : Type κ} {B : Type μ} → Outcome E A → (A → Outcome E B) → Outcome E B
ok a >>= f = f a
err e >>= f = err e
panic >>= f = panic

abbrev pub ◌>>◌ {ℓ μ} : {E : Type ℓ} {B : Type μ} → Outcome E (Unit {0}) → Outcome E B → Outcome E B
m >> k = m >>= λ _. k

-- `Option::expect`, `Option::unwrap`, and every library call that panics where the model has `none`.
abbrev pub expect {ℓ κ} : {E : Type ℓ} {A : Type κ} → Option A → Outcome E A
expect (some a) = ok a
expect none = panic

-- `Option::ok_or(e)?`.
abbrev pub ok_or {ℓ κ} : {E : Type ℓ} {A : Type κ} → E → Option A → Outcome E A
ok_or e (some a) = ok a
ok_or e none = err e

-- `if !test { return Err(e); }`.
abbrev pub ensure {ℓ} : {E : Type ℓ} → Bool → E → Outcome E (Unit {0})
ensure true e = ok tt
ensure false e = err e

-- `Result::map_err`.
abbrev pub map_err {ℓ κ μ} :
    {E : Type ℓ} {F : Type κ} {A : Type μ} → (E → F) → Outcome E A → Outcome F A
map_err f (ok a) = ok a
map_err f (err e) = err (f e)
map_err f panic = panic

-- What a value that comes out tells of the computation.
pub ok_inj {ℓ κ} : {E : Type ℓ} {A : Type κ} {a b : A} → Path (Outcome E A) (ok a) (ok b) → a ≡ b
ok_inj {a} h = ap (λ o. elim o [ ok x ↦ x | err _ ↦ a | panic ↦ a ]) h

pub expect_ok {ℓ κ} :
    {E : Type ℓ} {A : Type κ} (o : Option A) (a : A) → expect {E = E} o ≡ ok a → o ≡ some a
expect_ok {E} (some b) a h = ap some (ok_inj h)
expect_ok none a h = cc

pub map_err_ok {ℓ κ μ} :
    {E : Type ℓ} {F : Type κ} {A : Type μ} (f : E → F) (o : Outcome E A) (a : A)
    → map_err f o ≡ ok a
    → o ≡ ok a
map_err_ok {F} f (ok b) a h = ap ok (ok_inj h)
map_err_ok f (err e) a h = cc
map_err_ok f panic a h = cc

pub then_ok {ℓ κ μ} :
    {E : Type ℓ} {A : Type κ} {B : Type μ} (o : Outcome E A) (f : A → Outcome E B) (b : B)
    → (o >>= f) ≡ ok b
    → (a : A) × (o ≡ ok a) × (f a ≡ ok b)
then_ok (ok a) f b h = (a, refl, h)
then_ok (err e) f b h = absurd (cc h)
then_ok panic f b h = absurd (cc h)

pub ensure_ok {ℓ} : {E : Type ℓ} (b : Bool) (e : E) → ensure b e ≡ ok tt → b ≡ true
ensure_ok true e h = refl
ensure_ok false e h = cc

-- Whatever value comes out has the property.
pub record Yields {E A : Type 0} (P : A → Type 0) (o : Outcome E A) : Type 0 where
  pub result : (a : A) → o ≡ ok a → P a

pub Yields-then :
    {E A B : Type 0} {P : B → Type 0} (o : Outcome E A) (f : A → Outcome E B)
    → ((a : A) → o ≡ ok a → Yields P (f a))
    → Yields P (o >>= f)
Yields-then (ok a) f h = record { result = λ b e. (h a refl).result b e }
Yields-then (err x) f h = record { result = λ b e. cc }
Yields-then panic f h = record { result = λ b e. cc }

pub Yields-ok : {E A : Type 0} {P : A → Type 0} (a : A) → P a → Yields {E = E} P (ok a)
Yields-ok {A} {P} a p = record { result = λ b e. subst P (ok_inj e) p }
