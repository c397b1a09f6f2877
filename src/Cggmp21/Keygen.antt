-- ===== src/Cggmp21/Keygen.antt =====
-- src/cggmp21/keygen.rs: key generation. The messages, the loops and the three rounds.
pub mod Checked
pub mod Keys
pub mod Shares
pub mod Honest
use govis.Prelude.{
  ℕ, ◌+◌, ◌-◌, ◌*◌, ltb, ◌==◌, if◌then◌else◌, Option, none, some, List, [], ◌∷◌, ◌++◌, replicate,
  range_from, get_elem?, codes, Outcome, ok, err, panic, expect, ensure, map_err,
}
use govis.Prelude.{◌>>=◌ as ◌and_then◌}
use govis.Prelude.Bytes.{same_bytes}
use govis.Prelude.Maybe.{◌>>=◌ as ◌and_maybe◌}
use govis.Prelude.Int.{ℤ}
use govis.Net.{Sent, broadcast, Run, ◌>>=◌, ◌>>◌, quiet, send}
use govis.Big.{Big}
use govis.Curve.{Curve, be_value}
use govis.Vss.{scalar_to_bigint, evaluate_polynomial, compute_commitment, share_point}
use govis.Paillier.{
  PaillierPublicKey, PaillierPrivateKey, PaillierKeypair, encrypt_with_rho, decrypt,
}
use govis.Zk.{magnitude_bytes}
use govis.Zk.Blum.{BlumProof, prove_blum, verify_blum}
use govis.Zk.Log.{LogProof, prove_log, verify_log}
use govis.Zk.Schnorr.{SchnorrProof, prove_schnorr, verify_schnorr}
use govis.Cggmp21.KeyData.{Cggmp21KeygenOutput}
use govis.Prelude.Slots.{set_elem?}
use govis.Big.Draws.{drawn_below}

pub record Round1Msg : Type 0 where
  pub paillier_n : List ℕ
  pub blum_proof : BlumProof

pub record Round2Msg : Type 0 where
  pub commitment : List ℕ

pub record Round3Msg (c : Curve) : Type 0 where
  pub nonce : List ℕ
  pub polynomial_coeff_points : List c.Point
  pub encrypted_shares : List (ℤ × LogProof c)
  pub schnorr_proof : SchnorrProof c

pub data KeygenMsg (c : Curve) : Type 0 where
  round1 : Round1Msg → KeygenMsg c
  round2 : Round2Msg → KeygenMsg c
  round3 : Round3Msg c → KeygenMsg c

pub data Violation : Type 0 where
  blum_proof_failed vss_commitment_mismatch schnorr_proof_failed log_proof_failed : Violation

pub data Error (R S : Type 0) : Type 0 where
  round1_send : S → Error R S
  round1_receive : R → Error R S
  round2_send : S → Error R S
  round2_receive : R → Error R S
  round3_send : S → Error R S
  round3_receive : R → Error R S
  protocol_violation : Violation → Error R S

-- What the network does: the error of a send, and what each round delivers, by sender.
pub record Network (c : Curve) (R S : Type 0) : Type 0 where
  pub on_send : Sent (KeygenMsg c) → Option S
  pub round1_msgs : Outcome R (List (ℕ × Round1Msg))
  pub round2_msgs : Outcome R (List (ℕ × Round2Msg))
  pub round3_msgs : Outcome R (List (ℕ × Round3Msg c))

-- What a party draws: the primes and the key pair, the secret and the other coefficients of its
-- polynomial, the nonce of its commitment, and the numbers of its proofs.
pub record Draws (c : Curve) : Type 0 where
  pub p : ℕ
  pub q : ℕ
  pub kp : PaillierKeypair
  pub ec_secret : c.Scalar
  pub coefficient : ℕ → c.Scalar
  pub nonce : c.Scalar
  pub schnorr_alpha : c.Scalar
  pub rho : ℕ → ℤ
  pub log_alpha : ℕ → c.Scalar
  pub gamma : ℕ → ℤ

-- `round2_msgs.iter_indexed().find(|(s, _, _)| *s == sender)`.
unfoldable pub find_round2 : ℕ → List (ℕ × Round2Msg) → Option Round2Msg
find_round2 sender [] = none
find_round2 sender ((s, msg2) ∷ msgs) = if s == sender then some msg2 else find_round2 sender msgs

-- Where the sender's list has the share of the party `i`: a sender leaves itself out.
unfoldable pub enc_idx : ℕ → ℕ → ℕ
enc_idx sender i = if ltb sender i then i - 1 else i

module _ (c : Curve) (big : Big) (sha256 : List ℕ → List ℕ) where
  open c use {Scalar, Point, add, to_be_bytes, from_be_bytes_mod_order, generator, padd, scale}
  open big use {to_bytes_be}

  -- The loop over round 1: a key is stored at its sender's index when its Blum proof is accepted.
  unfoldable pub store_pks :
      {R S : Type 0}
      → List ℕ
      → List (ℕ × Round1Msg)
      → List (Option PaillierPublicKey)
      → Outcome (Error R S) (List (Option PaillierPublicKey))
  store_pks sid [] pks = ok pks
  store_pks sid ((sender, msg1) ∷ msgs) pks =
      let n_biguint = be_value msg1.paillier_n in
      expect (verify_blum big sha256 n_biguint sid msg1.blum_proof) and_then λ accepted.
      ensure accepted (protocol_violation blum_proof_failed) and_then λ _.
      expect (
        set_elem? sender
          (some (record { n = n_biguint; n_sq = n_biguint * n_biguint; g = n_biguint + 1 })) pks)
      and_then λ stored. store_pks sid msgs stored

  -- `SHA256("govis-cggmp21-keygen-commit" || commit || nonce)`.
  unfoldable pub keygen_commitment : List ℕ → List ℕ → List ℕ
  keygen_commitment commit nonce = sha256 (codes "govis-cggmp21-keygen-commit" ++ (commit ++ nonce))

  -- A share encrypted to its receiver, with the proof that it fits the commitments.
  unfoldable pub seal_share :
      Draws c → List ℕ → List Point → Scalar → PaillierPublicKey → ℕ → Option (ℤ × LogProof c)
  seal_share draws sid commitments share pk peer =
      let share_bi = scalar_to_bigint c share in
      drawn_below pk.n (draws.rho peer) and_maybe λ rho.
      encrypt_with_rho big pk share_bi rho and_maybe λ c_share.
      prove_log c big sha256 pk c_share share_bi rho (share_point c commitments peer) sid
        (draws.log_alpha peer) (draws.gamma peer)
      and_maybe λ log_proof. some (c_share, log_proof)

  -- The loop over the other parties whose keys are known.
  unfoldable pub encrypt_shares :
      Draws c
      → ℕ
      → List ℕ
      → List Point
      → List Scalar
      → List (Option PaillierPublicKey)
      → List ℕ
      → Option (List (ℤ × LogProof c))
  encrypt_shares draws i sid commitments shares pks [] = some []
  encrypt_shares draws i sid commitments shares pks (peer ∷ peers) =
      let rest = encrypt_shares draws i sid commitments shares pks peers in
      let sealed : Option (List (ℤ × LogProof c)) = get_elem? pks peer and_maybe λ known.
      elim known [
        | none ↦ rest
        | some pk ↦ get_elem? shares peer and_maybe λ share.
            seal_share draws sid commitments share pk peer and_maybe λ head.
            rest and_maybe λ tail. some (head ∷ tail)
      ] in
      if peer == i then rest else sealed

  -- The share that the sender encrypted to the party `i`, after its proof is accepted.
  unfoldable pub open_share :
      {R S : Type 0} → ℕ → List ℕ → PaillierKeypair → ℕ → Round3Msg c → Outcome (Error R S) Scalar
  open_share i sid kp sender msg3 =
      expect (get_elem? msg3.encrypted_shares (enc_idx sender i)) and_then λ (c_share, log_proof).
      expect (
        verify_log c big sha256 kp.pk c_share (share_point c msg3.polynomial_coeff_points i) sid
          log_proof)
      and_then λ accepted. ensure accepted (protocol_violation log_proof_failed) and_then λ _.
          expect (decrypt big kp.sk kp.pk c_share) and_then λ share_bi.
          ok (from_be_bytes_mod_order (magnitude_bytes big share_bi))

  -- One message of round 3: the commitment and the Schnorr proof are checked, and the sender's point and
  -- share are added.
  unfoldable pub add_round3 :
      {R S : Type 0}
      → ℕ
      → List ℕ
      → PaillierKeypair
      → List (ℕ × Round2Msg)
      → Scalar × Point
      → ℕ
      → Round3Msg c
      → Outcome (Error R S) (Scalar × Point)
  add_round3 {R} {S} i sid kp round2_msgs (combined_share, public_key) sender msg3 =
      let revealed_commit = compute_commitment c sha256 sid sender msg3.polynomial_coeff_points in
      let expected = keygen_commitment revealed_commit msg3.nonce in
      expect (find_round2 sender round2_msgs) and_then λ round2_commit.
      ensure (same_bytes expected round2_commit.commitment)
        (protocol_violation vss_commitment_mismatch)
      and_then λ _. expect (get_elem? msg3.polynomial_coeff_points 0) and_then λ pk_point.
          ensure (verify_schnorr c sha256 pk_point sid msg3.schnorr_proof)
            (protocol_violation schnorr_proof_failed)
          and_then λ _.
              (if sender == i
                then ok combined_share
                else (open_share {R = R} {S = S} i sid kp sender msg3 and_then λ share.
                    ok (add combined_share share)))
              and_then λ combined. ok (combined, padd public_key pk_point)

  unfoldable pub add_round3_all :
      {R S : Type 0}
      → ℕ
      → List ℕ
      → PaillierKeypair
      → List (ℕ × Round2Msg)
      → Scalar × Point
      → List (ℕ × Round3Msg c)
      → Outcome (Error R S) (Scalar × Point)
  add_round3_all i sid kp round2_msgs total [] = ok total
  add_round3_all i sid kp round2_msgs total ((sender, msg3) ∷ msgs) =
      add_round3 i sid kp round2_msgs total sender msg3 and_then λ next.
      add_round3_all i sid kp round2_msgs next msgs

  unfoldable pub run_keygen :
      {R S : Type 0}
      → Network c R S
      → ℕ
      → ℕ
      → ℕ
      → List ℕ
      → Draws c
      → Run (KeygenMsg c) (Error R S) (Cggmp21KeygenOutput c)
  run_keygen {S} net i n t sid draws = do
    let pk1 = draws.kp.pk
    blum_proof ← quiet (expect (prove_blum big sha256 draws.p draws.q pk1.n sid))
    send {S = S} net.on_send round1_send
        (broadcast (round1 (record { paillier_n = to_bytes_be pk1.n; blum_proof = blum_proof })))
    round1_msgs ← quiet (map_err round1_receive net.round1_msgs)
    own ← quiet (expect (set_elem? i (some pk1) (replicate n none)))
    peer_paillier_pks ← quiet (store_pks sid round1_msgs own)
    let polynomial = evaluate_polynomial c draws.ec_secret t n draws.coefficient
    let commitments = polynomial.0
    let secret_shares = polynomial.1
    let nonce_bytes = to_be_bytes draws.nonce
    let commit = compute_commitment c sha256 sid i commitments
    send {S = S} net.on_send round2_send
        (broadcast (round2 (record { commitment = keygen_commitment commit nonce_bytes })))
    round2_msgs ← quiet (map_err round2_receive net.round2_msgs)
    constant ← quiet (expect (get_elem? commitments 0))
    let schnorr_proof = prove_schnorr c sha256 draws.ec_secret constant sid draws.schnorr_alpha
    encrypted_shares ← quiet (
        expect
          (encrypt_shares draws i sid commitments secret_shares peer_paillier_pks (range_from 0 n)))
    send {S = S} net.on_send round3_send (
        broadcast (
          round3 (record {
            nonce = nonce_bytes;
            polynomial_coeff_points = commitments;
            encrypted_shares = encrypted_shares;
            schnorr_proof = schnorr_proof;
          })))
    round3_msgs ← quiet (map_err round3_receive net.round3_msgs)
    own_share ← quiet (expect (get_elem? secret_shares i))
    total ← quiet (
        add_round3_all i sid draws.kp round2_msgs (own_share, scale generator draws.ec_secret)
          round3_msgs)
    quiet (
        ok (record {
          ec_share = total.0;
          public_key = total.1;
          paillier_sk = draws.kp.sk;
          paillier_pk = pk1;
          peer_paillier_pks = peer_paillier_pks;
        }))
