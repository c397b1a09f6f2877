-- ===== src/Ecdsa/Der.antt =====
-- A strict decoder of DER, to check the Bitcoin encoding of a signature with. It knows lengths of one
-- byte, which DER asks for below 128, and refuses what is longer.
use govis.Prelude.{
  ℕ, ◌/◌, ◌%◌, ltb, ◌==◌, if◌then◌else◌, Option, some, none, List, [], ◌∷◌, length, take, drop,
  Bool, false, ◌&&◌, ◌||◌, not,
}
use govis.Prelude.Maybe.{◌>>=◌}
use govis.Curve.{be_value}

-- The content of an INTEGER that is not negative, in the shortest form: at least one byte, no sign bit,
-- and a zero in front only of a byte with the highest bit.
unfoldable pub valid_int : List ℕ → Bool
valid_int [] = false
valid_int (b ∷ []) = b / 128 % 2 == 0
valid_int (b ∷ b' ∷ bytes) = b / 128 % 2 == 0 && (not (b == 0) || b' / 128 % 2 == 1)

-- Tag, length and content of the value at the front of the input. The content, and the rest of the input.
unfoldable pub decode_value : ℕ → List ℕ → Option (List ℕ × List ℕ)
decode_value tag (t ∷ len ∷ rest) =
    if t == tag && (ltb len 128 && length (take len rest) == len)
    then some (take len rest, drop len rest)
    else none
decode_value tag _ = none

-- An INTEGER at the front of the input. The number, and the rest of the input.
unfoldable pub decode_int : List ℕ → Option (ℕ × List ℕ)
decode_int input = do
  value ← decode_value 2 input
  if valid_int value.0 then some (be_value value.0, value.1) else none

-- Nothing may follow.
unfoldable pub at_end : {A : Type 0} → A × List ℕ → Option A
at_end (a, []) = some a
at_end (a, b ∷ bytes) = none

-- A SEQUENCE of two INTEGERs, and nothing else.
unfoldable pub decode_signature : List ℕ → Option (ℕ × ℕ)
decode_signature input = do
  value ← decode_value 0x30 input
  content ← at_end value
  r ← decode_int content
  s ← decode_int r.1
  s_value ← at_end s
  some (r.0, s_value)
