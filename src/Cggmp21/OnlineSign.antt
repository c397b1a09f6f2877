-- ===== src/Cggmp21/OnlineSign.antt =====
-- src/cggmp21/sign.rs: the online phase, one round in which the signers exchange signature shares.
pub mod Delivered
pub mod Checked
pub mod Honest
use govis.Prelude.{
  ℕ, zero, suc, ◌+◌, ◌%◌, ◌^◌, ◌==◌, if◌then◌else◌, Option, none, some, List, [], ◌∷◌, ◌++◌, length,
  range_from, Outcome, ok, err, panic, expect, ok_or, ensure, map_err, Bool, ◌≡◌,
}
use govis.Net.{Sent, p2p, Run, ◌>>=◌, ◌>>◌, quiet, send}
use govis.Curve.{Curve}
use govis.Vss.{lagrange_coeff}
use govis.Ecdsa.{verify_signature}
use govis.Cggmp21.{Presignature}
use mathlib.Core.Option

pub record SignatureShareMsg : Type 0 where
  pub s_i : List ℕ

pub data OnlineSignMsg : Type 0 where
  round1 : SignatureShareMsg → OnlineSignMsg

pub record Signature : Type 0 where
  pub r_bytes : List ℕ
  pub s_bytes : List ℕ
  pub rec_id : ℕ

pub data Violation : Type 0 where
  party_not_in_signer_set : Violation

pub data Error (R S : Type 0) : Type 0 where
  round1_send : S → Error R S
  round1_receive : R → Error R S
  protocol_violation : Violation → Error R S
  invalid_signature : Error R S

-- What the network does: the error of a send, and what round 1 delivers, by the sender's local index.
pub record Network (R S : Type 0) : Type 0 where
  pub on_send : Sent OnlineSignMsg → Option S
  pub round1_msgs : Outcome R (List (ℕ × SignatureShareMsg))

-- `signers.iter().position(|s| *s == i)`.
unfoldable pub position : ℕ → List ℕ → Option ℕ
position i [] = none
position i (s ∷ signers) = if s == i then some 0 else Option.map suc (position i signers)

module _ (c : Curve) where
  open c use {Scalar, Point, add, mul, from_be_bytes_mod_order, to_be_bytes, y_is_odd}

  -- `none` is the panic of `expect` at the identity.
  unfoldable pub recovery_id : Point → Option ℕ
  recovery_id r_point = Option.map (λ odd. if odd then 1 else 0) (y_is_odd r_point)

  -- The loop that sends the share to every signer but the party itself, by positions cast to u16.
  unfoldable pub send_shares :
      {R S : Type 0} → Network R S → ℕ → List ℕ → List ℕ → Run OnlineSignMsg (Error R S) (Unit {0})
  send_shares net local_i s_i_bytes [] = quiet (ok tt)
  send_shares {S} net local_i s_i_bytes (peer ∷ peers) =
      let local_peer = peer % 2 ^ 16 in
      let rest = send_shares net local_i s_i_bytes peers in
      if local_peer == local_i
      then rest
      else (send {S = S} net.on_send round1_send
            (p2p local_peer (round1 (record { s_i = s_i_bytes })))
          >> rest)

  -- The loop that adds the shares received.
  unfoldable pub add_shares : ℕ → Scalar → List (ℕ × SignatureShareMsg) → Scalar
  add_shares local_i s_total [] = s_total
  add_shares local_i s_total ((sender_local, msg1) ∷ msgs) =
      add_shares local_i
        (if sender_local == local_i
          then s_total
          else add s_total (from_be_bytes_mod_order msg1.s_i))
        msgs

  unfoldable pub run_online_sign :
      {R S : Type 0}
      → Network R S
      → ℕ
      → List ℕ
      → Scalar
      → Point
      → List ℕ
      → Presignature c
      → Run OnlineSignMsg (Error R S) Signature
  run_online_sign net i signers ec_share public_key msg_digest presig = do
    index ← quiet (ok_or (protocol_violation party_not_in_signer_set) (position i signers))
    let local_i = index % 2 ^ 16
    lambda ← quiet (expect (lagrange_coeff c i signers))
    let msg = from_be_bytes_mod_order msg_digest
    let s_i = mul (mul presig.k_inv lambda) (add msg (mul presig.r ec_share))
    let s_i_bytes = to_be_bytes s_i
    send_shares net local_i s_i_bytes (range_from 0 (length signers))
    round1_msgs ← quiet (map_err round1_receive net.round1_msgs)
    let r_bytes = to_be_bytes presig.r
    let s_bytes = to_be_bytes (add_shares local_i s_i round1_msgs)
    valid ← quiet (expect (verify_signature c public_key msg_digest r_bytes s_bytes))
    quiet (ensure valid invalid_signature)
    rec_id ← quiet (expect (recovery_id presig.r_point))
    quiet (ok (record { r_bytes = r_bytes; s_bytes = s_bytes; rec_id = rec_id }))
