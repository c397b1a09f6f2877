-- ===== src/Lindell/Dkg.antt =====
-- src/lindell/dkg.rs: commit-reveal Feldman sharing, and key generation and refresh on top of it.
pub mod Rounds
pub mod Honest
use govis.Prelude.{
  ℕ, zero, suc, ◌+◌, ◌==◌, if◌then◌else◌, Option, none, some, List, [], ◌∷◌, ◌++◌, range_from,
  get_elem?, is_yes, Outcome, ok, err, panic, expect, ok_or, ensure, map_err, Bool,
}
use govis.Prelude.{◌>>=◌ as ◌and_then◌}
use govis.Prelude.Bytes.{same_bytes}
use govis.Net.{Sent, broadcast, p2p, Run, ◌>>=◌, ◌>>◌, quiet, send, flush}
use govis.Curve.{Curve}
use govis.Vss.{evaluate_polynomial, compute_commitment, share_point}
use govis.Lindell.{CommitMsg, RevealMsg, ShareMsg, Msg, round1, round2, round3, LindellDkgOutput}

pub data Error (R S : Type 0) : Type 0 where
  round1_send : S → Error R S
  round1_receive : R → Error R S
  round2_send : S → Error R S
  round2_receive : R → Error R S
  round3_send : S → Error R S
  round3_receive : R → Error R S
  commitment_mismatch : ℕ → Error R S
  share_verification_failed : ℕ → Error R S

-- What the network does: the error of a send or of the flush after round 3's sends, and what each round delivers, by sender.
pub record Network (c : Curve) (R S : Type 0) : Type 0 where
  pub on_send : Sent (Msg c) → Option S
  pub on_flush : Option S
  pub commitments_hashes : Outcome R (List (ℕ × CommitMsg))
  pub reveals : Outcome R (List (ℕ × RevealMsg c))
  pub shares : Outcome R (List (ℕ × ShareMsg c))

module _ (c : Curve) (sha256 : List ℕ → List ℕ) where
  open c use {Scalar, Point, point_eq, zero_s, add, generator, padd, scale}

  -- The loop over the commitments and reveals zipped together: the sum of the constant terms, and the
  -- reveals by sender.
  unfoldable pub check_reveals :
      {R S : Type 0}
      → List ℕ
      → List (ℕ × CommitMsg)
      → List (ℕ × RevealMsg c)
      → Point
      → List (ℕ × RevealMsg c)
      → Outcome (Error R S) (Point × List (ℕ × RevealMsg c))
  check_reveals sid ((sender, commit) ∷ hashes) ((_, reveal) ∷ reveals) combined_pk
        reveals_by_sender =
      let expected = compute_commitment c sha256 sid sender reveal.public_coeffs in
      let next = expect (get_elem? reveal.public_coeffs 0) and_then λ first.
      check_reveals sid hashes reveals (padd combined_pk first)
        (reveals_by_sender ++ ((sender, reveal) ∷ [])) in
      if same_bytes expected commit.commitment then next else err (commitment_mismatch sender)
  check_reveals sid _ _ combined_pk reveals_by_sender = ok (combined_pk, reveals_by_sender)

  -- The loop that sends its share to every other party; an index out of range panics.
  unfoldable pub send_shares :
      {R S : Type 0} → Network c R S → ℕ → List Scalar → List ℕ → Run (Msg c) (Error R S) (Unit {0})
  send_shares net i secret_shares [] = quiet (ok tt)
  send_shares {S} net i secret_shares (j ∷ parties) =
      let rest = send_shares net i secret_shares parties in
      let sent = (do
        share ← quiet (expect (get_elem? secret_shares j))
        send {S = S} net.on_send round3_send (p2p j (round3 (record { share = share })))
        rest) in
      if j == i then rest else sent

  -- `reveals_by_sender.iter().find(|(s, _)| *s == sender)`.
  unfoldable pub find_reveal : ℕ → List (ℕ × RevealMsg c) → Option (RevealMsg c)
  find_reveal sender [] = none
  find_reveal sender ((s, reveal) ∷ reveals) =
      if s == sender then some reveal else find_reveal sender reveals

  -- The loop that checks each received share against its sender's reveal and adds it.
  unfoldable pub add_checked_shares :
      {R S : Type 0}
      → ℕ
      → List (ℕ × RevealMsg c)
      → Scalar
      → List (ℕ × ShareMsg c)
      → Outcome (Error R S) Scalar
  add_checked_shares i reveals final_share [] = ok final_share
  add_checked_shares i reveals final_share ((sender, share_msg) ∷ shares) =
      let next = add_checked_shares i reveals (add final_share share_msg.share) shares in
      ok_or (share_verification_failed sender) (find_reveal sender reveals) and_then λ reveal.
      if is_yes (point_eq (scale generator share_msg.share) (share_point c reveal.public_coeffs i))
      then next
      else err (share_verification_failed sender)

  -- `draw` are the coefficients drawn by `evaluate_polynomial`.
  unfoldable pub run_vss :
      {R S : Type 0}
      → Network c R S
      → ℕ
      → ℕ
      → ℕ
      → List ℕ
      → Scalar
      → (ℕ → Scalar)
      → Run (Msg c) (Error R S) (Scalar × Point)
  run_vss {S} net i n t sid intercept draw = do
    let polynomial = evaluate_polynomial c intercept t n draw
    let commitments = polynomial.0
    let secret_shares = polynomial.1
    let commitment = compute_commitment c sha256 sid i commitments
    send {S = S} net.on_send round1_send (broadcast (round1 (record { commitment = commitment })))
    commitments_hashes ← quiet (map_err round1_receive net.commitments_hashes)
    send {S = S} net.on_send round2_send
        (broadcast (round2 (record { public_coeffs = commitments })))
    reveals ← quiet (map_err round2_receive net.reveals)
    own ← quiet (expect (get_elem? commitments 0))
    checked ← quiet (check_reveals sid commitments_hashes reveals own [])
    send_shares net i secret_shares (range_from 0 n)
    flush {S = S} net.on_flush round3_send
    shares ← quiet (map_err round3_receive net.shares)
    own_share ← quiet (expect (get_elem? secret_shares i))
    final_share ← quiet (add_checked_shares i checked.1 own_share shares)
    quiet (ok (final_share, checked.0))

  -- The intercept is the scalar `secret` drawn.
  unfoldable pub run_dkg :
      {R S : Type 0}
      → Network c R S
      → ℕ
      → ℕ
      → ℕ
      → List ℕ
      → Scalar
      → (ℕ → Scalar)
      → Run (Msg c) (Error R S) (LindellDkgOutput c)
  run_dkg net i n t sid secret draw = do
    result ← run_vss net i n t sid secret draw
    quiet (ok (record { secret_share = result.0; public_key = result.1 }))

  unfoldable pub run_refresh :
      {R S : Type 0}
      → Network c R S
      → ℕ
      → ℕ
      → ℕ
      → List ℕ
      → Scalar
      → Point
      → (ℕ → Scalar)
      → Run (Msg c) (Error R S) (LindellDkgOutput c)
  run_refresh net i n t sid old_share master_pk draw = do
    result ← run_vss net i n t sid zero_s draw
    quiet (ok (record { secret_share = add old_share result.0; public_key = master_pk }))
