-- ===== src/Ecdsa.antt =====
-- src/lindell/sign.rs: ECDSA verification, the recovery id, and the Ethereum and Bitcoin encodings.
pub mod Verify
pub mod Recovery
pub mod Der
pub mod Encoding
use govis.Prelude.{
  ℕ, zero, suc, ◌+◌, ◌-◌, ◌*◌, ◌/◌, ◌%◌, ◌^◌, ◌==◌, leb, if◌then◌else◌, is_yes, Option, none, some,
  List, [], ◌∷◌, ◌++◌, length, get_elem?, Bool,
}
use govis.Curve.{Curve}
use govis.Vss.{point_x_coord}
use mathlib.Core.Option

module _ (c : Curve) where
  open c use {
    Scalar, Point, scalar_eq, zero_s, add, mul, invert, from_be_bytes_mod_order, generator, padd,
    scale, point_bytes,
  }

  -- `none` is a panic of `point_x_coord`.
  unfoldable pub verify_signature : Point → List ℕ → List ℕ → List ℕ → Option Bool
  verify_signature public_key msg_digest r_bytes s_bytes =
      let r = from_be_bytes_mod_order r_bytes in
      let s = from_be_bytes_mod_order s_bytes in
      let z = from_be_bytes_mod_order msg_digest in
      let s_inv = Option.get_or (invert s) zero_s in
      let u1 = mul z s_inv in
      let u2 = mul r s_inv in
      let p = padd (scale generator u1) (scale public_key u2) in
      Option.map (λ calculated_r. is_yes (scalar_eq r calculated_r)) (point_x_coord c p)

  -- Byte 32 of the uncompressed encoding, modulo 2; `none` is the panic of an index out of range.
  unfoldable pub recovery_id : Point → Option ℕ
  recovery_id r_point = Option.map (λ b. b % 2) (get_elem? (point_bytes Bool.false r_point) 32)

-- Arithmetic on `u8` wraps around. `chain as u8` keeps the low eight bits.
unfoldable pub ethereum_signature : List ℕ → List ℕ → ℕ → Option ℕ → List ℕ
ethereum_signature r_bytes s_bytes rec_id (some chain) =
    r_bytes ++ (s_bytes ++ (((rec_id + 35 + 2 * (chain % 2 ^ 8)) % 2 ^ 8) ∷ []))
ethereum_signature r_bytes s_bytes rec_id none =
    r_bytes ++ (s_bytes ++ (((rec_id + 27) % 2 ^ 8) ∷ []))

-- From `position(|b| *b != 0).unwrap_or(bytes.len() - 1)` on: leading zeros go, the last byte stays.
unfoldable pub trim : List ℕ → List ℕ
trim [] = []
trim (b ∷ []) = b ∷ []
trim (b ∷ b' ∷ bytes) = if b == 0 then trim (b' ∷ bytes) else b ∷ b' ∷ bytes

-- `none` is the panic on an empty integer.
unfoldable pub encode_int : List ℕ → Option (List ℕ)
encode_int [] = none
encode_int (b ∷ bytes) = elim (trim (b ∷ bytes)) [
  | [] ↦ none
  | first ∷ rest ↦ some (if first / 128 % 2 == 1 then 0 ∷ first ∷ rest else first ∷ rest)
]

unfoldable pub bitcoin_der_signature : List ℕ → List ℕ → Option (List ℕ)
bitcoin_der_signature r_bytes s_bytes = Option.bind (encode_int r_bytes) λ r_enc.
    Option.map
      (λ s_enc.
        0x30
        ∷ ((2 + length r_enc + 2 + length s_enc) % 2 ^ 8)
        ∷ 0x02
        ∷ (length r_enc % 2 ^ 8)
        ∷ (r_enc ++ (0x02 ∷ (length s_enc % 2 ^ 8) ∷ s_enc)))
      (encode_int s_bytes)
