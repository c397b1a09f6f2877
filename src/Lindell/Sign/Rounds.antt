-- ===== src/Lindell/Sign/Rounds.antt =====
-- src/lindell/sign.rs: the three rounds of `run_sign`, with the messages sent.
use govis.Prelude.{
  ℕ, ◌==◌, leb, ltb, if◌then◌else◌, Option, none, some, List, [], ◌∷◌, Outcome, ok, panic, expect,
  ok_or, ensure, map_err, Bool,
}
use govis.Prelude.{◌>>=◌ as ◌and_then◌}
use govis.Net.{broadcast, Run, ◌>>=◌, ◌>>◌, quiet, send}
use govis.Big.{Big}
use govis.Curve.{Curve}
use govis.Vss.{lagrange_coeff}
use govis.Ecdsa.{verify_signature}
use govis.Lindell.Sign.{
  p1_data, P2Data, p2_data, ack, Round3Msg, SignMsg, round1, round2, round3, Error, P1State,
  P1Draws, P2Draws, Network, find_from, no_signature, round1_send, round1_receive, round2_send,
  round2_receive, round3_send, round3_receive, protocol_violation, invalid_signature,
}
use govis.Lindell.Sign.Parties.{p1_round1, p2_round2, p1_round3}

module _ (c : Curve) (big : Big) (sha256 : List ℕ → List ℕ) where
  open c use {
    Scalar, Point, add, mul, invert, from_be_bytes_mod_order, to_be_bytes, generator, scale,
    point_bytes,
  }

  -- `assert!`.
  abbrev assert : {R S : Type 0} → Bool → Run (SignMsg c) (Error R S) (Unit {0})
  assert test = quiet (if test then ok tt else panic)

  -- Round 1: what the first signer keeps, if this is the first signer.
  unfoldable pub sign_round1 :
      {R S : Type 0}
      → Network c R S
      → Bool
      → P1Draws c
      → Run (SignMsg c) (Error R S) (Option (P1State c))
  sign_round1 {R} {S} net is_p1 draws =
      let first = (do
        made ← quiet (p1_round1 c big sha256 draws)
        send {S = S} net.on_send round1_send (broadcast (round1 (p1_data made.1)))
        quiet (ok (some made.0))) in
      let other = (do
        send {E = Error R S} {S = S} net.on_send round1_send (broadcast (round1 ack))
        quiet (ok none)) in
      if is_p1 then first else other

  -- Round 2.
  unfoldable pub sign_round2 :
      {R S : Type 0}
      → Network c R S
      → Bool
      → Outcome (Error R S) P2Data
      → Run (SignMsg c) (Error R S) (Unit {0})
  sign_round2 {R} {S} net is_p2 made =
      let second = (do
        data2 ← quiet made
        send {S = S} net.on_send round2_send (broadcast (round2 (p2_data data2)))) in
      if is_p2
      then second
      else send {E = Error R S} {S = S} net.on_send round2_send (broadcast (round2 ack))

  -- `if !verify_signature(..) { return Err(Error::InvalidSignature); }`.
  unfoldable pub check_signature :
      {R S : Type 0} → Point → List ℕ → Round3Msg → Outcome (Error R S) (Unit {0})
  check_signature public_key msg_digest sig =
      expect (verify_signature c public_key msg_digest sig.r_bytes sig.s_bytes) and_then λ valid.
      ensure valid invalid_signature

  -- Round 3 of the first signer: it broadcasts the signature before it verifies it.
  unfoldable pub sign_round3_first :
      {R S : Type 0}
      → Network c R S
      → Point
      → List ℕ
      → Outcome (Error R S) Round3Msg
      → Run (SignMsg c) (Error R S) Round3Msg
  sign_round3_first {S} net public_key msg_digest made = do
    sig ← quiet made
    send {S = S} net.on_send round3_send (broadcast (round3 sig))
    quiet (check_signature public_key msg_digest sig)
    msgs3 ← quiet (map_err round3_receive net.msgs3)
    quiet (ok sig)

  -- Round 3 of every other party: it verifies the signature that the first signer sent.
  unfoldable pub sign_round3_other :
      {R S : Type 0} → Network c R S → ℕ → Point → List ℕ → Run (SignMsg c) (Error R S) Round3Msg
  sign_round3_other {S} net first public_key msg_digest = do
    send {S = S} net.on_send round3_send
        (broadcast (round3 (record { r_bytes = []; s_bytes = []; rec_id = 0 })))
    msgs3 ← quiet (map_err round3_receive net.msgs3)
    sig ← quiet (ok_or (protocol_violation no_signature) (find_from first msgs3))
    quiet (check_signature public_key msg_digest sig)
    quiet (ok sig)

  -- `signers` is [first, second].
  unfoldable pub run_sign :
      {R S : Type 0}
      → Network c R S
      → ℕ
      → ℕ
      → ℕ
      → ℕ
      → Scalar
      → Point
      → List ℕ
      → P1Draws c
      → P2Draws
      → Run (SignMsg c) (Error R S) Round3Msg
  run_sign net i n first second share public_key msg_digest draws1 draws2 = do
    assert (leb 2 n)
    assert (ltb i n)
    let is_p1 = i == first
    let is_p2 = i == second
    lambda ← quiet (expect (lagrange_coeff c i (first ∷ second ∷ [])))
    let msg = from_be_bytes_mod_order msg_digest
    p1_state ← sign_round1 net is_p1 draws1
    msgs1 ← quiet (map_err round1_receive net.msgs1)
    sign_round2 net is_p2 (p2_round2 c big sha256 draws2 first lambda msg share msgs1)
    msgs2 ← quiet (map_err round2_receive net.msgs2)
    if is_p1
        then sign_round3_first net public_key msg_digest
            (p1_round3 c big sha256 p1_state i second (first ∷ second ∷ []) msg share msgs2)
        else sign_round3_other net first public_key msg_digest
