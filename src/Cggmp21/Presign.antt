-- ===== src/Cggmp21/Presign.antt =====
-- src/cggmp21/presign.rs: the offline phase, in which the signers make a nonce together. The order of
-- the curve, the messages and the loops.
pub mod Checked
pub mod Peers
pub mod Rounds
pub mod Nonces
pub mod Honest
use govis.Prelude.{
  ℕ, zero, suc, ◌+◌, ◌%◌, ◌^◌, ◌*◌, ltb, ◌==◌, if◌then◌else◌, Option, none, some, List, [], ◌∷◌,
  ◌++◌, length, replicate, range_from, get_elem?, codes, Outcome, ok, err, panic, expect, ok_or,
  ensure, map_err, Bool, true, not,
}
use govis.Prelude.{◌>>=◌ as ◌and_then◌}
use govis.Prelude.Bytes.{same_bytes}
use govis.Prelude.Maybe.{◌>>=◌ as ◌and_maybe◌}
use govis.Prelude.Int.{ℤ, pos, ◌+ℤ◌, mod_floor?}
use govis.Prelude.Slots.{set_elem?}
use govis.Net.{Sent, broadcast, p2p, Run, ◌>>=◌, ◌>>◌, quiet, send, flush}
use govis.Big.{Big}
use govis.Big.Draws.{drawn_below}
use govis.Curve.{Curve, be_value}
use govis.Vss.{u16_be_bytes, scalar_to_bigint, point_x_coord}
use govis.Paillier.{
  PaillierPublicKey, PaillierPrivateKey, PaillierKeypair, encrypt_with_rho, decrypt,
}
use govis.Zk.{magnitude_bytes}
use govis.Zk.Range.{RangeProof, prove_range}
use govis.Cggmp21.{Presignature}
use govis.Cggmp21.OnlineSign.{position}
use mathlib.Core.Option

pub record PaillierPkMsg : Type 0 where
  pub n : ℕ
  pub g : ℕ

pub record CommitMsg : Type 0 where
  pub commitment : List ℕ

pub record RevealMsg (c : Curve) : Type 0 where
  pub r_point : c.Point

pub record EncryptedKMsg : Type 0 where
  pub c_k_share : Option ℤ
  pub range_proof : Option RangeProof

pub data PresignMsg (c : Curve) : Type 0 where
  round0 : PaillierPkMsg → PresignMsg c
  round1 : CommitMsg → PresignMsg c
  round2 : RevealMsg c → PresignMsg c
  round3 : EncryptedKMsg → PresignMsg c

pub data Violation : Type 0 where
  party_not_in_signer_set : Violation
  commitment_mismatch : Violation

pub data Error (R S : Type 0) : Type 0 where
  round0_send : S → Error R S
  round0_receive : R → Error R S
  round1_send : S → Error R S
  round1_receive : R → Error R S
  round2_send : S → Error R S
  round2_receive : R → Error R S
  round3_send : S → Error R S
  round3_receive : R → Error R S
  protocol_violation : Violation → Error R S

-- What the network does: the error of a send or of the flush, and what each round delivers, by the
-- sender's local index.
pub record Network (c : Curve) (R S : Type 0) : Type 0 where
  pub on_send : Sent (PresignMsg c) → Option S
  pub on_flush : Option S
  pub round0_msgs : Outcome R (List (ℕ × PaillierPkMsg))
  pub round1_msgs : Outcome R (List (ℕ × CommitMsg))
  pub round2_msgs : Outcome R (List (ℕ × RevealMsg c))
  pub round3_msgs : Outcome R (List (ℕ × EncryptedKMsg))

-- What a party draws: its key pair, its nonce, and for each peer the numbers of the encryption and of
-- the range proof.
pub record Draws (c : Curve) : Type 0 where
  pub kp : PaillierKeypair
  pub k_scalar : c.Scalar
  pub rho : ℕ → ℤ
  pub alpha : ℕ → ℤ
  pub gamma : ℕ → ℤ

abbrev pub secp256k1_order : ℕ
secp256k1_order = be_value (
    255 ∷ 255 ∷ 255 ∷ 255 ∷ 255 ∷ 255 ∷ 255 ∷ 255 ∷ 255 ∷ 255 ∷ 255 ∷ 255 ∷ 255 ∷ 255 ∷ 255 ∷ 254
    ∷ 186 ∷ 174 ∷ 220 ∷ 230 ∷ 175 ∷ 72 ∷ 160 ∷ 59 ∷ 191 ∷ 210 ∷ 94 ∷ 140 ∷ 208 ∷ 54 ∷ 65 ∷ 65 ∷ [])

-- The loop that stores the other signers' keys at their local indices.
unfoldable pub store_pks :
    ℕ
    → List (ℕ × PaillierPkMsg)
    → List (Option PaillierPublicKey)
    → Option (List (Option PaillierPublicKey))
store_pks local_i [] pks = some pks
store_pks local_i ((sender_local, msg0) ∷ msgs) pks =
    (if sender_local == local_i
      then some pks
      else set_elem? sender_local (some (record { n = msg0.n; n_sq = msg0.n ^ 2; g = msg0.g })) pks)
    and_maybe store_pks local_i msgs

-- `round1_msgs.iter_indexed().find(|(s, _, _)| *s == sender_local)`.
unfoldable pub find_commit : ℕ → List (ℕ × CommitMsg) → Option CommitMsg
find_commit sender_local [] = none
find_commit sender_local ((s, msg) ∷ msgs) =
    if s == sender_local then some msg else find_commit sender_local msgs

module _ (c : Curve) (big : Big) (sha256 : List ℕ → List ℕ) where
  open c use {Scalar, Point, invert, from_be_bytes_mod_order, generator, padd, scale, point_bytes}

  unfoldable pub presign_commitment : ℕ → Point → List ℕ
  presign_commitment local_i r_point =
      sha256
        (codes "govis-cggmp21-presign-commit" ++ (u16_be_bytes local_i ++ point_bytes true r_point))

  -- The loop that checks each revealed point against its sender's commitment and adds it.
  unfoldable pub add_reveals :
      {R S : Type 0}
      → List (ℕ × CommitMsg)
      → Point
      → List (ℕ × RevealMsg c)
      → Outcome (Error R S) Point
  add_reveals round1_msgs r_point_total [] = ok r_point_total
  add_reveals round1_msgs r_point_total ((sender_local, reveal_msg) ∷ msgs) =
      let next = add_reveals round1_msgs (padd r_point_total reveal_msg.r_point) msgs in
      expect (find_commit sender_local round1_msgs) and_then λ commit_msg.
      if same_bytes (presign_commitment sender_local reveal_msg.r_point) commit_msg.commitment
      then next
      else err (protocol_violation commitment_mismatch)

  -- The nonce, encrypted to one peer, with its range proof.
  unfoldable pub encrypt_k : Draws c → PaillierPublicKey → ℕ → Option EncryptedKMsg
  encrypt_k draws pk local_peer =
      let k_bi = scalar_to_bigint c draws.k_scalar in
      drawn_below pk.n (draws.rho local_peer) and_maybe λ rho.
      encrypt_with_rho big pk k_bi rho and_maybe λ c_k_enc.
      prove_range big sha256 pk c_k_enc k_bi rho 256 (codes "govis-cggmp21-presign")
        (draws.alpha local_peer) (draws.gamma local_peer)
      and_maybe λ range_proof.
          some (record { c_k_share = some c_k_enc; range_proof = some range_proof })

  -- The loop that sends it to every other signer whose key is known.
  unfoldable pub send_encrypted :
      {R S : Type 0}
      → (Sent (PresignMsg c) → Option S)
      → Draws c
      → ℕ
      → List (Option PaillierPublicKey)
      → List ℕ
      → Run (PresignMsg c) (Error R S) (Unit {0})
  send_encrypted on_send draws local_i pks [] = quiet (ok tt)
  send_encrypted {R} {S} on_send draws local_i pks (local_peer ∷ peers) =
      let rest = send_encrypted {R = R} on_send draws local_i pks peers in
      let sent = (do
        known ← quiet (expect (get_elem? pks local_peer))
        elim known [
          | none ↦ rest
          | some pk ↦ (do
            msg ← quiet (expect (encrypt_k draws pk local_peer))
            send {E = Error R S} {S = S} on_send round3_send (p2p local_peer (round3 msg))
            rest)
        ]) in
      if local_peer == local_i then rest else sent

  -- The total after one message of round 3.
  unfoldable pub add_plaintext : PaillierKeypair → ℕ → ℤ → ℕ → EncryptedKMsg → Option ℤ
  add_plaintext kp local_i k_bi_total sender_local msg3 =
      let added : Option ℤ = elim msg3.c_k_share [
        | none ↦ some k_bi_total
        | some c_k_share ↦ decrypt big kp.sk kp.pk c_k_share and_maybe λ plaintext.
            Option.map pos (mod_floor? (k_bi_total +ℤ plaintext) secp256k1_order)
      ] in
      if sender_local == local_i then some k_bi_total else added

  unfoldable pub add_plaintexts : PaillierKeypair → ℕ → ℤ → List (ℕ × EncryptedKMsg) → Option ℤ
  add_plaintexts kp local_i k_bi_total [] = some k_bi_total
  add_plaintexts kp local_i k_bi_total ((sender_local, msg3) ∷ msgs) =
      add_plaintext kp local_i k_bi_total sender_local msg3 and_maybe λ total.
      add_plaintexts kp local_i total msgs

  unfoldable pub run_presign :
      {R S : Type 0}
      → Network c R S
      → ℕ
      → List ℕ
      → Draws c
      → Run (PresignMsg c) (Error R S) (Presignature c)
  run_presign {S} net i signers draws = do
    index ← quiet (ok_or (protocol_violation party_not_in_signer_set) (position i signers))
    let local_i = index % 2 ^ 16
    let m = length signers % 2 ^ 16
    send {S = S} net.on_send round0_send
        (broadcast (round0 (record { n = draws.kp.pk.n; g = draws.kp.pk.g })))
    round0_msgs ← quiet (map_err round0_receive net.round0_msgs)
    peer_paillier_pks ← quiet (expect (store_pks local_i round0_msgs (replicate m none)))
    let r_point_share = scale generator draws.k_scalar
    let commitment = presign_commitment local_i r_point_share
    send {S = S} net.on_send round1_send (broadcast (round1 (record { commitment = commitment })))
    round1_msgs ← quiet (map_err round1_receive net.round1_msgs)
    send {S = S} net.on_send round2_send (broadcast (round2 (record { r_point = r_point_share })))
    round2_msgs ← quiet (map_err round2_receive net.round2_msgs)
    r_point_total ← quiet (add_reveals round1_msgs r_point_share round2_msgs)
    r ← quiet (expect (point_x_coord c r_point_total))
    send_encrypted net.on_send draws local_i peer_paillier_pks (range_from 0 m)
    flush {S = S} net.on_flush round3_send
    round3_msgs ← quiet (map_err round3_receive net.round3_msgs)
    k_bi_total ←
        quiet
          (expect (add_plaintexts draws.kp local_i (scalar_to_bigint c draws.k_scalar) round3_msgs))
    let k_final = from_be_bytes_mod_order (magnitude_bytes big k_bi_total)
    k_inv ← quiet (expect (invert k_final))
    quiet (ok (record { k = k_final; k_inv = k_inv; r = r; r_point = r_point_total }))
