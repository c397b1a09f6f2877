-- ===== src/Prelude/Bytes.antt =====
-- Byte strings: fixed-width big-endian encodings, and the comparison.
use Prim.Native.Nat.{ℕ, zero, suc, ◌/◌, ◌%◌, ◌^◌}
use mathlib.Core.List.{List, [], ◌∷◌}
use mathlib.Core.Bool.{Bool, true, false}
use mathlib.Core.Path.{◌≡◌, refl}
use govis.Prelude.Tests.{◌==◌, ==_refl, if◌then◌else◌}

-- The low `w` bytes of a number, the most significant first.
abbrev pub be_bytes : ℕ → ℕ → List ℕ
be_bytes zero n = []
be_bytes (suc w) n = (n / 256 ^ w % 256) ∷ be_bytes w n

-- `u64::to_be_bytes`.
abbrev pub u64_be_bytes : ℕ → List ℕ
u64_be_bytes = be_bytes 8

-- `==` on byte arrays and strings.
abbrev pub same_bytes : List ℕ → List ℕ → Bool
same_bytes [] [] = true
same_bytes (a ∷ as') (b ∷ bs) = if a == b then same_bytes as' bs else false
same_bytes _ _ = false

pub same_bytes_refl : (bs : List ℕ) → same_bytes bs bs ≡ true
same_bytes_refl [] = refl
same_bytes_refl (b ∷ bs) = rw (==_refl b) (same_bytes_refl bs)
