-- ===== src/Prelude/Maybe.antt =====
-- `do` blocks over `Option`, where `none` is a panic of the source.
use mathlib.Core.Option.{Option, none, some}

infixl 5 ◌>>=◌
abbrev pub ◌>>=◌ : {A B : Type 0} → Option A → (A → Option B) → Option B
none >>= f = none
some a >>= f = f a
