-- ===== src/Cggmp21/Keygen/Checked.antt =====
-- What key generation has checked when it returns, whatever the network and the other parties do.
use govis.Prelude.{◌>>=◌ as ◌and_then◌}
use govis.Prelude.Slots.{set_elem?}
use govis.Prelude.{
  ℕ, ◌+◌, ◌*◌, ◌==◌, if◌then◌else◌, Option, some, List, [], ◌∷◌, get_elem?, ok, expect, map_err,
  ok_inj, expect_ok, map_err_ok, then_ok, ensure_ok, else_taken, true, false, ◌≡◌, sym, ap, ◌∙◌,
  All,
}
use govis.Prelude.Bytes.{same_bytes}
use govis.Prelude.Int.{ℤ}
use govis.Net.{Returns, Returns-then_run, Returns-ok}
use govis.Big.{Big}
use govis.Curve.{Curve, be_value}
use govis.Vss.{compute_commitment, share_point}
use govis.Paillier.{PaillierKeypair, PaillierPublicKey}
use govis.Zk.Blum.{verify_blum}
use govis.Zk.Log.{LogProof, verify_log}
use govis.Zk.Schnorr.{verify_schnorr}
use govis.Cggmp21.KeyData.{Cggmp21KeygenOutput}
use mathlib.Core.Path.{subst}
use govis.Cggmp21.Keygen.{
  Round1Msg, Round2Msg, Round3Msg, Error, round1_receive, round2_receive, round3_receive, Network,
  Draws, find_round2, enc_idx, keygen_commitment, store_pks, open_share, add_round3, add_round3_all,
  run_keygen,
}

module _ (c : Curve) (big : Big) (sha256 : List ℕ → List ℕ) where
  open c use {Scalar, Point, add, padd, scale, generator}

  -- A message of round 1 whose Blum proof is accepted.
  abbrev pub BlumAccepted : List ℕ → ℕ × Round1Msg → Type 0
  BlumAccepted sid (sender, msg1) =
      verify_blum big sha256 (be_value msg1.paillier_n) sid msg1.blum_proof ≡ some true

  -- The share that a sender encrypted to the party `i` comes with an accepted proof that it fits the
  -- sender's commitments.
  abbrev pub ShareAccepted : ℕ → List ℕ → PaillierPublicKey → ℕ → Round3Msg c → Type 0
  ShareAccepted i sid pk sender msg3 =
      (c_share : ℤ) × (log_proof : LogProof c) × (get_elem? msg3.encrypted_shares (enc_idx sender i)
        ≡ some (c_share, log_proof))
      × (verify_log c big sha256 pk c_share (share_point c msg3.polynomial_coeff_points i) sid
            log_proof
          ≡ some true)

  -- What is checked of a message of round 3 with the constant term `pk_point`.
  pub record Accepted (i : ℕ) (sid : List ℕ) (pk : PaillierPublicKey)
      (round2_msgs : List (ℕ × Round2Msg)) (sender : ℕ) (msg3 : Round3Msg c) (pk_point : Point)
      : Type 0 where
    pub round2_commit : Round2Msg
    pub constant : get_elem? msg3.polynomial_coeff_points 0 ≡ some pk_point
    pub found : find_round2 sender round2_msgs ≡ some round2_commit
    pub committed :
        same_bytes
          (keygen_commitment c big sha256
            (compute_commitment c sha256 sid sender msg3.polynomial_coeff_points)
            msg3.nonce)
          round2_commit.commitment
        ≡ true
    pub known : verify_schnorr c sha256 pk_point sid msg3.schnorr_proof ≡ true
    pub share : (sender == i) ≡ false → ShareAccepted i sid pk sender msg3

  -- Every message is accepted, and the constant terms are added to the public key.
  abbrev pub AllAccepted :
      ℕ
      → List ℕ
      → PaillierPublicKey
      → List (ℕ × Round2Msg)
      → Point
      → List (ℕ × Round3Msg c)
      → Point
      → Type 0
  AllAccepted i sid pk round2_msgs public_key [] final = final ≡ public_key
  AllAccepted i sid pk round2_msgs public_key ((sender, msg3) ∷ msgs) final =
      (pk_point : Point) × Accepted i sid pk round2_msgs sender msg3 pk_point
      × AllAccepted i sid pk round2_msgs (padd public_key pk_point) msgs final

  abbrev sent_pk : Round1Msg → PaillierPublicKey
  sent_pk msg1 =
      let n_biguint = be_value msg1.paillier_n in
      record { n = n_biguint; n_sq = n_biguint * n_biguint; g = n_biguint + 1 }

  store_pks_ok :
      {R S : Type 0} (sid : List ℕ) (msgs : List (ℕ × Round1Msg))
      (pks pks' : List (Option PaillierPublicKey))
      → store_pks c big sha256 {R = R} {S = S} sid msgs pks ≡ ok pks'
      → All (BlumAccepted sid) msgs
  unfolding store_pks
  store_pks_ok sid [] pks pks' h = tt
  store_pks_ok {R} {S} sid ((sender, msg1) ∷ msgs) pks pks' h =
      let (accepted, e1, h1) = then_ok _ _ pks' h in
      let (_, e2, h2) = then_ok _ _ pks' h1 in
      let (stored, e3, h3) =
        then_ok (expect (set_elem? sender (some (sent_pk msg1)) pks))
          (store_pks c big sha256 {R = R} {S = S} sid msgs) pks' h2 in
      (
        expect_ok _ accepted e1 ∙ ap some (ensure_ok accepted _ e2),
        store_pks_ok {R = R} {S = S} sid msgs stored pks' h3,
      )

  open_share_ok :
      {R S : Type 0} (i : ℕ) (sid : List ℕ) (kp : PaillierKeypair) (sender : ℕ) (msg3 : Round3Msg c)
      (share : Scalar)
      → open_share c big sha256 {R = R} {S = S} i sid kp sender msg3 ≡ ok share
      → ShareAccepted i sid kp.pk sender msg3
  unfolding open_share
  open_share_ok i sid kp sender msg3 share h =
      let ((c_share, log_proof), e1, h1) = then_ok _ _ share h in
      let (accepted, e2, h2) = then_ok _ _ share h1 in
      let (_, e3, h3) = then_ok _ _ share h2 in
      (
        c_share,
        log_proof,
        expect_ok _ (c_share, log_proof) e1,
        expect_ok _ accepted e2 ∙ ap some (ensure_ok accepted _ e3),
      )

  add_round3_ok :
      {R S : Type 0} (i : ℕ) (sid : List ℕ) (kp : PaillierKeypair)
      (round2_msgs : List (ℕ × Round2Msg)) (combined_share : Scalar) (public_key : Point)
      (sender : ℕ) (msg3 : Round3Msg c) (next : Scalar × Point)
      → add_round3 c big sha256 {R = R} {S = S} i sid kp round2_msgs
          (combined_share, public_key)
          sender
          msg3
        ≡ ok next
      → (pk_point : Point) × Accepted i sid kp.pk round2_msgs sender msg3 pk_point
        × (next.1 ≡ padd public_key pk_point)
  unfolding add_round3
  add_round3_ok {R} {S} i sid kp round2_msgs combined_share public_key sender msg3 next h =
      let (commit, e1, h1) = then_ok _ _ next h in
      let (_, e2, h2) = then_ok _ _ next h1 in
      let (pk_point, e3, h3) = then_ok _ _ next h2 in
      let (_, e4, h4) = then_ok _ _ next h3 in
      let (combined, e5, h5) =
        then_ok
          (if sender == i
            then ok combined_share
            else (open_share c big sha256 {R = R} {S = S} i sid kp sender msg3 and_then λ share.
                ok (add combined_share share)))
          (λ combined. ok (combined, padd public_key pk_point)) next h4 in
      (
        pk_point,
        record {
          round2_commit = commit;
          constant = expect_ok _ pk_point e3;
          found = expect_ok _ commit e1;
          committed = ensure_ok _ _ e2;
          known = ensure_ok _ _ e4;
          share = λ other.
              let (share, e6, h6) = then_ok _ _ combined (else_taken _ _ _ _ e5 other) in
              open_share_ok {R = R} {S = S} i sid kp sender msg3 share e6;
        },
        ap (λ t. t.1) (sym (ok_inj h5)),
      )

  add_round3_all_ok :
      {R S : Type 0} (i : ℕ) (sid : List ℕ) (kp : PaillierKeypair)
      (round2_msgs : List (ℕ × Round2Msg)) (combined_share : Scalar) (public_key : Point)
      (msgs : List (ℕ × Round3Msg c)) (final : Scalar × Point)
      → add_round3_all c big sha256 {R = R} {S = S} i sid kp round2_msgs
          (combined_share, public_key)
          msgs
        ≡ ok final
      → AllAccepted i sid kp.pk round2_msgs public_key msgs final.1
  unfolding add_round3_all
  add_round3_all_ok i sid kp round2_msgs combined_share public_key [] final h =
      ap (λ t. t.1) (sym (ok_inj h))
  add_round3_all_ok {R} {S} i sid kp round2_msgs combined_share public_key ((sender, msg3) ∷ msgs)
        final h =
      let (next, e1, h1) = then_ok _ _ final h in
      let (pk_point, accepted, sum) =
        add_round3_ok {R = R} {S = S} i sid kp round2_msgs combined_share public_key sender msg3
          next e1 in
      (
        pk_point,
        accepted,
        subst (λ t. AllAccepted i sid kp.pk round2_msgs t msgs final.1) sum
            (add_round3_all_ok {R = R} {S = S} i sid kp round2_msgs next.0 next.1 msgs final h1),
      )

  -- What `run_keygen` promises of its result, for the messages that the rounds delivered.
  abbrev pub Sound :
      {R S : Type 0} → Network c R S → ℕ → List ℕ → Draws c → Cggmp21KeygenOutput c → Type 0
  Sound net i sid draws out =
      (msgs1 : List (ℕ × Round1Msg)) × (msgs2 : List (ℕ × Round2Msg)) × (msgs3 : List
        (ℕ × Round3Msg c))
      × (net.round1_msgs ≡ ok msgs1)
      × (net.round2_msgs ≡ ok msgs2)
      × (net.round3_msgs ≡ ok msgs3)
      × All (BlumAccepted sid) msgs1
      × AllAccepted i sid draws.kp.pk msgs2 (scale generator draws.ec_secret) msgs3 out.public_key

  Sound-intro :
      {R S : Type 0} (net : Network c R S) (i : ℕ) (sid : List ℕ) (draws : Draws c)
      (msgs1 : List (ℕ × Round1Msg)) (msgs2 : List (ℕ × Round2Msg)) (msgs3 : List (ℕ × Round3Msg c))
      (own pks : List (Option PaillierPublicKey)) (own_share : Scalar) (total : Scalar × Point)
      → map_err {F = Error R S} round1_receive net.round1_msgs ≡ ok msgs1
      → store_pks c big sha256 {R = R} {S = S} sid msgs1 own ≡ ok pks
      → map_err {F = Error R S} round2_receive net.round2_msgs ≡ ok msgs2
      → map_err {F = Error R S} round3_receive net.round3_msgs ≡ ok msgs3
      → add_round3_all c big sha256 {R = R} {S = S} i sid draws.kp msgs2
          (own_share, scale generator draws.ec_secret)
          msgs3
        ≡ ok total
      → Sound net i sid draws (record {
        ec_share = total.0;
        public_key = total.1;
        paillier_sk = draws.kp.sk;
        paillier_pk = draws.kp.pk;
        peer_paillier_pks = pks;
      })
  Sound-intro {R} {S} net i sid draws msgs1 msgs2 msgs3 own pks own_share total h1 hp h2 h3 ht = (
    msgs1,
    msgs2,
    msgs3,
    map_err_ok round1_receive net.round1_msgs msgs1 h1,
    map_err_ok round2_receive net.round2_msgs msgs2 h2,
    map_err_ok round3_receive net.round3_msgs msgs3 h3,
    store_pks_ok {R = R} {S = S} sid msgs1 own pks hp,
    add_round3_all_ok {R = R} {S = S} i sid draws.kp msgs2 own_share _ msgs3 total ht,
  )

  -- Whatever the network delivers and whatever is drawn: when `run_keygen` returns a key, every Blum
  -- proof of round 1 was accepted; every message of round 3 matches the commitment of its sender in
  -- round 2 and has an accepted Schnorr proof for its constant term; the share of every other sender has
  -- an accepted proof that it fits the sender's commitments; and the public key is the party's own point
  -- plus the constant terms.
  pub run_keygen_ok :
      {R S : Type 0} (net : Network c R S) (i n t : ℕ) (sid : List ℕ) (draws : Draws c)
      → Returns (Sound net i sid draws) (run_keygen c big sha256 net i n t sid draws)
  unfolding run_keygen
  run_keygen_ok net i n t sid draws = search (Returns-then_run, Returns-ok, Sound-intro) depth 40
