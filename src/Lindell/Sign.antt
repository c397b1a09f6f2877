-- ===== src/Lindell/Sign.antt =====
-- src/lindell/sign.rs, from its line 84 on: two-party signing. The first signer encrypts the inverse of
-- its nonce, the second one puts its part of the signature into the ciphertext, and the first one
-- decrypts, completes the signature and broadcasts it. This file has the messages and the state.
pub mod Parties
pub mod Rounds
pub mod Agreement
pub mod Answers
pub mod Honest
pub mod Verified
use govis.Prelude.{
  ℕ, ◌+◌, ◌*◌, ◌^◌, ◌==◌, leb, ltb, if◌then◌else◌, Option, none, some, List, [], ◌∷◌, ◌++◌, codes,
  Outcome, ok, err, panic, expect, ok_or, ensure, map_err, Bool,
}
use govis.Prelude.{◌>>=◌ as ◌and_then◌}
use govis.Prelude.Int.{ℤ, pos, negsuc, ◌*ℤ◌, rem?}
use govis.Net.{Sent, broadcast, Run, ◌>>=◌, ◌>>◌, quiet, send}
use govis.Big.{Big}
use govis.Curve.{Curve}
use govis.Vss.{lagrange_coeff, point_x_coord, scalar_to_bigint, biguint_to_scalar}
use govis.Ecdsa.{verify_signature, recovery_id}
use govis.Paillier.{
  PaillierPublicKey, PaillierPrivateKey, PaillierKeypair, encrypt_with_rho, decrypt,
}
use govis.Zk.Range.{RangeProof, prove_range, verify_range}
use govis.Zk.Mul.{MulProof, prove_mul, verify_mul}
use govis.Zk.Consistency.{ConsistencyProof, prove_consistency, verify_consistency}

abbrev pub curve_bits : ℕ
curve_bits = 256

-- The fields of `Round1Msg::P1Data`.
pub record P1Data (c : Curve) : Type 0 where
  pub point : c.Point
  pub c_k_inv : ℤ
  pub pk_n : ℕ
  pub pk_g : ℕ
  pub range_proof : RangeProof
  pub consistency_proof : ConsistencyProof c

pub data Round1Msg (c : Curve) : Type 0 where
  p1_data : P1Data c → Round1Msg c
  ack : Round1Msg c

-- The fields of `Round2Msg::P2Data`.
pub record P2Data : Type 0 where
  pub c_s2 : ℤ
  pub mul_proof : MulProof

pub data Round2Msg : Type 0 where
  p2_data : P2Data → Round2Msg
  ack : Round2Msg

pub record Round3Msg : Type 0 where
  pub r_bytes : List ℕ
  pub s_bytes : List ℕ
  pub rec_id : ℕ

pub data SignMsg (c : Curve) : Type 0 where
  round1 : Round1Msg c → SignMsg c
  round2 : Round2Msg → SignMsg c
  round3 : Round3Msg → SignMsg c

-- The texts of the `ProtocolViolation` returns, in their order.
pub data Violation : Type 0 where
  p2_no_p1_data p2_got_ack p2_range_proof p2_consistency_proof : Violation
  p1_no_state p1_no_p2_data p1_got_ack p1_mul_proof : Violation
  no_signature : Violation

pub data Error (R S : Type 0) : Type 0 where
  round1_send : S → Error R S
  round1_receive : R → Error R S
  round2_send : S → Error R S
  round2_receive : R → Error R S
  round3_send : S → Error R S
  round3_receive : R → Error R S
  protocol_violation : Violation → Error R S
  invalid_signature : Error R S

pub record P1State (c : Curve) : Type 0 where
  pub sk : PaillierPrivateKey
  pub pk : PaillierPublicKey
  pub k : c.Scalar
  pub k_inv : c.Scalar
  pub r_point_bytes : List ℕ
  pub c_k_inv : ℤ

-- The key pair that the first signer generates, and the values that it draws.
pub record P1Draws (c : Curve) : Type 0 where
  pub kp : PaillierKeypair
  pub k : c.Scalar
  pub rho : ℤ
  pub range_alpha : ℤ
  pub range_gamma : ℤ
  pub consistency_alpha : c.Scalar
  pub consistency_gamma : ℤ

-- The values that the second signer draws.
pub record P2Draws : Type 0 where
  pub rho_s2 : ℤ
  pub mul_t : ℤ
  pub mul_rho : ℤ

-- What the network does: the error of a send, and what each round delivers, by sender.
pub record Network (c : Curve) (R S : Type 0) : Type 0 where
  pub on_send : Sent (SignMsg c) → Option S
  pub msgs1 : Outcome R (List (ℕ × Round1Msg c))
  pub msgs2 : Outcome R (List (ℕ × Round2Msg))
  pub msgs3 : Outcome R (List (ℕ × Round3Msg))

-- `into_iter_indexed().find(|(sender, _, _)| *sender == party).map(|(_, _, msg)| msg)`.
unfoldable pub find_from {ℓ} : {A : Type ℓ} → ℕ → List (ℕ × A) → Option A
find_from party [] = none
find_from party ((sender, msg) ∷ msgs) = if sender == party then some msg else find_from party msgs

abbrev pub to_biguint : ℤ → Option ℕ
to_biguint (pos n) = some n
to_biguint (negsuc n) = none
