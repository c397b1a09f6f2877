-- ===== src/Ecdsa/Encoding.antt =====
-- The Bitcoin encoding of a signature, read back by the strict decoder.
use govis.Prelude.{
  ℕ, suc, ◌+◌, ◌/◌, ◌%◌, ◌^◌, ◌≤◌, ◌<◌, ltb, ◌≡◌, refl, sym, ap, ◌∙◌, arith, ◌==◌, ==_iff, ==_refl,
  if◌then◌else◌, some, none, List, [], ◌∷◌, ◌++◌, length, length-append, take, drop, Bool-cases,
  ◌⊎◌, false, inl, inr, true,
}
use govis.Curve.{be_value}
use mathlib.Core.List.{append-nil}
use mathlib.Core.Option
use govis.Ecdsa.Der.{valid_int, decode_value, decode_int, at_end, decode_signature}
use govis.Ecdsa.{trim, encode_int, bitcoin_der_signature}

be_value_zero : (bytes : List ℕ) → be_value (0 ∷ bytes) ≡ be_value bytes
be_value_zero bytes = refl

be_value-trim : (bytes : List ℕ) → be_value (trim bytes) ≡ be_value bytes
unfolding trim
be_value-trim [] = refl
be_value-trim (b ∷ []) = refl
be_value-trim (b ∷ b' ∷ bytes) = elim (Bool-cases (b == 0)) [
  | inl e ↦
      rw e
        (be_value-trim (b' ∷ bytes) ∙ ap (λ t. be_value (t ∷ b' ∷ bytes)) (sym ((==_iff b 0).0 e)))
  | inr e ↦ rw e
]

length-trim : (b : ℕ) (bytes : List ℕ) → length (trim (b ∷ bytes)) ≤ suc (length bytes)
unfolding trim
length-trim b [] = omega arith
length-trim b (b' ∷ bytes) = elim (Bool-cases (b == 0)) [
  | inl e ↦ rw e (omega (arith, length-trim b' bytes))
  | inr e ↦ rw e (omega arith)
]

-- What is left begins with a byte that is not zero, or is one byte.
trim_cons :
    (b : ℕ) (bytes : List ℕ)
    → (first : ℕ) × (rest : List ℕ) × (trim (b ∷ bytes) ≡ first ∷ rest)
      × ((rest ≡ []) ⊎ ((first == 0) ≡ false))
unfolding trim
trim_cons b [] = (b, [], refl, inl refl)
trim_cons b (b' ∷ bytes) = elim (Bool-cases (b == 0)) [
  | inl e ↦ rw e (trim_cons b' bytes)
  | inr e ↦ rw e (b, b' ∷ bytes, refl, inr e)
]

-- An encoded integer: not longer by more than one, in the form of DER, and with the same value.
record Encoded (bytes enc : List ℕ) : Type 0 where
  valid : valid_int enc ≡ true
  same_value : be_value enc ≡ be_value bytes
  short : length enc ≤ suc (length bytes)

valid_low :
    (first : ℕ) (rest : List ℕ)
    → (first / 128 % 2 == 1) ≡ false
    → (rest ≡ []) ⊎ ((first == 0) ≡ false)
    → valid_int (first ∷ rest) ≡ true
unfolding valid_int
valid_low first [] low form = ground (arith, low)
valid_low first (b ∷ rest) low (inl e) = cc
valid_low first (b ∷ rest) low (inr e) =
    let even : (first / 128 % 2 == 0) ≡ true = ground (arith, low) in rw (even, e) refl

encode_int-trim :
    (b : ℕ) (bytes : List ℕ) (first : ℕ) (rest : List ℕ)
    → trim (b ∷ bytes) ≡ first ∷ rest
    → encode_int (b ∷ bytes)
      ≡ some (if first / 128 % 2 == 1 then 0 ∷ first ∷ rest else first ∷ rest)
unfolding encode_int
encode_int-trim b bytes first rest e =
    ap
      (λ l. elim l [
        | [] ↦ none
        | first ∷ rest ↦ some (if first / 128 % 2 == 1 then 0 ∷ first ∷ rest else first ∷ rest)
      ])
      e

encode_int-Encoded :
    (b : ℕ) (bytes : List ℕ)
    → (enc : List ℕ) × (encode_int (b ∷ bytes) ≡ some enc) × Encoded (b ∷ bytes) enc
encode_int-Encoded b bytes =
    let (first, rest, e, form) = trim_cons b bytes in
    let value = ap be_value (sym e) ∙ be_value-trim (b ∷ bytes) in
    let size = size_of first rest e in
    elim (Bool-cases (first / 128 % 2 == 1)) [
      | inl high ↦ (
        0 ∷ first ∷ rest,
        encode_int-trim b bytes first rest e ∙ rw high refl,
        record {
          valid = unfold valid_int in rw high refl;
          same_value = value;
          short = omega (arith, size);
        },
      )
      | inr low ↦ (
        first ∷ rest,
        encode_int-trim b bytes first rest e ∙ rw low refl,
        record {
          valid = valid_low first rest low form;
          same_value = value;
          short = omega (arith, size);
        },
      )
    ]
  where
    size_of :
        (first : ℕ) (rest : List ℕ)
        → trim (b ∷ bytes) ≡ first ∷ rest
        → suc (length rest) ≤ suc (length bytes)
    size_of first rest e = omega (arith, length-trim b bytes, ap length e)

take_append : (xs ys : List ℕ) → take (length xs) (xs ++ ys) ≡ xs
take_append [] ys = refl
take_append (x ∷ xs) ys = ap (λ l. x ∷ l) (take_append xs ys)

drop_append : (xs ys : List ℕ) → drop (length xs) (xs ++ ys) ≡ ys
drop_append [] ys = refl
drop_append (x ∷ xs) ys = drop_append xs ys

-- The decoder reads a value with a short length back, and leaves what follows it.
decode_value-append :
    (tag : ℕ) (content ys : List ℕ)
    → length content < 128
    → decode_value tag (tag ∷ length content ∷ (content ++ ys)) ≡ some (content, ys)
unfolding decode_value
decode_value-append tag content ys h =
    let short : ltb (length content) 128 ≡ true = ground (arith, h) in
    rw
      (==_refl tag, short, take_append content ys, ==_refl (length content), drop_append content ys)
      refl

decode_int-Encoded :
    (bytes enc ys : List ℕ)
    → Encoded bytes enc
    → length enc < 128
    → decode_int (2 ∷ length enc ∷ (enc ++ ys)) ≡ some (be_value bytes, ys)
unfolding decode_int
decode_int-Encoded bytes enc ys h short =
    rw (decode_value-append 2 enc ys short, h.valid, h.same_value) refl

-- A sequence of two integers.
abbrev sequence : List ℕ → List ℕ → List ℕ
sequence r_enc s_enc =
    0x30
    ∷ ((2 + length r_enc + 2 + length s_enc) % 2 ^ 8)
    ∷ 2
    ∷ (length r_enc % 2 ^ 8)
    ∷ (r_enc ++ (2 ∷ (length s_enc % 2 ^ 8) ∷ s_enc))

-- The content of the sequence.
abbrev integers : List ℕ → List ℕ → List ℕ
integers r_enc s_enc = 2 ∷ length r_enc ∷ (r_enc ++ (2 ∷ length s_enc ∷ s_enc))

sequence-integers :
    (r_enc s_enc : List ℕ)
    → length r_enc + length s_enc < 124
    → sequence r_enc s_enc ≡ 0x30 ∷ length (integers r_enc s_enc) ∷ (integers r_enc s_enc ++ [])
sequence-integers r_enc s_enc h = rw (append-nil (integers r_enc s_enc), total, r_len, s_len) refl
  where
    r_len : length r_enc % 2 ^ 8 ≡ length r_enc
    r_len = omega (arith, h)

    s_len : length s_enc % 2 ^ 8 ≡ length s_enc
    s_len = omega (arith, h)

    total :
        (2 + length r_enc + 2 + length s_enc) % 2 ^ 8
        ≡ suc (suc (length (r_enc ++ (2 ∷ length s_enc ∷ s_enc))))
    total = omega (arith, h, length-append r_enc (2 ∷ length s_enc ∷ s_enc))

decode_signature-sequence :
    (r_bytes s_bytes r_enc s_enc : List ℕ)
    → Encoded r_bytes r_enc
    → Encoded s_bytes s_enc
    → length r_enc + length s_enc < 124
    → decode_signature (sequence r_enc s_enc) ≡ some (be_value r_bytes, be_value s_bytes)
unfolding decode_signature at_end
decode_signature-sequence r_bytes s_bytes r_enc s_enc pr ps h =
    ap decode_signature (sequence-integers r_enc s_enc h)
    ∙ rw
        (
          decode_value-append 0x30 (integers r_enc s_enc) []
              (omega (arith, h, length-append r_enc (2 ∷ length s_enc ∷ s_enc))),
          decode_int-Encoded r_bytes r_enc (2 ∷ length s_enc ∷ s_enc) pr (omega (arith, h)),
          ap (λ l. decode_int (2 ∷ length s_enc ∷ l)) (sym (append-nil s_enc))
              ∙ decode_int-Encoded s_bytes s_enc [] ps (omega (arith, h)),
        )
        refl

-- For two byte strings that are not empty, of at most 121 bytes together, `bitcoin_der_signature` answers,
-- and the strict decoder, which refuses lengths of 128 and more, negative integers and integers that are
-- not in the shortest form, reads the two numbers back.
pub bitcoin_der_signature-decodes :
    (b b' : ℕ) (r_bytes s_bytes : List ℕ)
    → length (b ∷ r_bytes) + length (b' ∷ s_bytes) ≤ 121
    → (sig : List ℕ) × (bitcoin_der_signature (b ∷ r_bytes) (b' ∷ s_bytes) ≡ some sig)
      × (decode_signature sig ≡ some (be_value (b ∷ r_bytes), be_value (b' ∷ s_bytes)))
unfolding bitcoin_der_signature Option.bind
bitcoin_der_signature-decodes b b' r_bytes s_bytes h =
    let (r_enc, er, pr) = encode_int-Encoded b r_bytes in
    let (s_enc, es, ps) = encode_int-Encoded b' s_bytes in
    (
      sequence r_enc s_enc,
      rw (er, es) refl,
      decode_signature-sequence (b ∷ r_bytes) (b' ∷ s_bytes) r_enc s_enc pr ps
          (omega (arith, h, pr.short, ps.short)),
    )
