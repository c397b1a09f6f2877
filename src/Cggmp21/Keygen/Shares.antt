-- ===== src/Cggmp21/Keygen/Shares.antt =====
-- The shares of key generation: sealing, opening and adding them, on what honest parties send.
use govis.Prelude.{
  ℕ, zero, suc, ◌<◌, ltb, ◌==◌, Option, some, some_inj, List, [], ◌∷◌, map, range_from, get_elem?,
  ok, Bool-cases, inl, inr, ◌≡◌, refl, sym, ap, ◌∙◌, arith, true, false, All,
}
use govis.Prelude.Bytes.{same_bytes_refl}
use govis.Prelude.Int.{ℤ, pos}
use govis.Big.{Big}
use govis.Curve.{Curve, be_value}
use govis.Curve.Laws
use govis.Vss.{coefficients, compute_commitment, scalar_to_bigint, share_point}
use govis.Vss.Polynomial.{eval}
use govis.Vss.Shares.{share_point-eval}
use govis.Vss.Lagrange.{coord}
use govis.Vss.Lagrange.Interpolation.{sum_over}
use govis.Paillier.{PaillierPublicKey, decrypt}
use govis.Paillier.Plaintext.{IsKeypair, IsRandomness, encrypt_with_rho-Opens, decrypt-Opens}
use govis.Zk.Range.Complete.{IsPublicKey}
use govis.Zk.Log.{LogProof, verify_log}
use govis.Zk.Log.Complete.{prove_log-accepted, from_magnitude}
use govis.Zk.Schnorr.{prove_schnorr, prove_schnorr-accepted}
use govis.Lindell.Dkg.Rounds.{others}
use govis.Big.Draws.{drawn_below}
use govis.Cggmp21.Keygen.{
  Round2Msg, Round3Msg, Draws, find_round2, keygen_commitment, seal_share, encrypt_shares,
  open_share, add_round3, add_round3_all,
}
use govis.Cggmp21.Keygen.Keys.{get_elem?-enc_idx, pk_of}
use native.Mathlib.Nat.{mod-eq_of_lt}

module _ (c : Curve) (big : Big) (sha256 : List ℕ → List ℕ) (draws : ℕ → Draws c) (sid : List ℕ)
    (n t : ℕ) where
  open c use {
    Scalar, Point, add, from_nat, to_be_bytes, from_be_bytes_mod_order, generator, padd, scale,
    scale-add, scale-zero, add_assoc, padd_assoc,
  }

  -- The polynomial of the party `j`, its commitments, and the share that it makes for `i`.
  abbrev pub poly : ℕ → List Scalar
  poly j = coefficients c (draws j).ec_secret t (draws j).coefficient

  abbrev pub points : ℕ → List Point
  points j = map (scale generator) (poly j)

  abbrev pub share_for : ℕ → ℕ → Scalar
  share_for j i = eval c (poly j) (coord c i)

  -- What the party `s` draws for its message to the receiver `i`, and that the number of the share is below
  -- the modulus of the receiver.
  pub record DrawnFor (s i : ℕ) : Type 0 where
    pub rho_n : ℕ
    pub gamma_n : ℕ
    pub rho_eq : (draws s).rho i ≡ pos rho_n
    pub gamma_eq : (draws s).gamma i ≡ pos gamma_n
    pub unit : IsRandomness (pk_of c big sha256 draws sid i) (draws i).kp.sk rho_n
    pub fits : be_value (to_be_bytes (share_for s i)) < (pk_of c big sha256 draws sid i).n

  -- A sealed share is made, its proof is accepted, and it decrypts to the share.
  pub seal_share-opens :
      (s i : ℕ)
      → IsKeypair (pk_of c big sha256 draws sid i) (draws i).kp.sk
      → DrawnFor s i
      → (ct : ℤ) × (proof : LogProof c) × (seal_share c big sha256
            (draws s)
            sid
            (points s)
            (share_for s i)
            (pk_of c big sha256 draws sid i)
            i
          ≡ some (ct, proof))
        × (verify_log c big sha256
              (pk_of c big sha256 draws sid i)
              ct
              (share_point c (points s) i)
              sid
              proof
            ≡ some true)
        × (decrypt big (draws i).kp.sk (pk_of c big sha256 draws sid i) ct
            ≡ some (pos (be_value (to_be_bytes (share_for s i)))))
  unfolding seal_share drawn_below scalar_to_bigint
  seal_share-opens s i key drawn =
      let (ct, proof, e1, e2, e3) =
        prove_log-accepted c big sha256 pk public x drawn.rho_n drawn.gamma_n sid
          ((draws s).log_alpha i) in
      let (ct', e4, opens) =
        encrypt_with_rho-Opens big pk (draws i).kp.sk key x drawn.rho_n drawn.unit in
      (
        ct,
        proof,
        rw (above_one, drawn.rho_eq, drawn.gamma_eq, e1, point, e2) refl,
        rw point e3,
        rw (some_inj (sym e1 ∙ e4)) (
            decrypt-Opens big pk (draws i).kp.sk key ct' x opens
            ∙ ap (λ t. some (pos t)) (mod-eq_of_lt drawn.fits)),
      )
    where
      pk : PaillierPublicKey
      pk = pk_of c big sha256 draws sid i

      x : ℕ
      x = be_value (to_be_bytes (share_for s i))

      public : IsPublicKey pk
      public = record { n_large = key.n_large; n_sq_eq = key.n_sq_eq; g_eq = key.g_eq }

      above_one : ltb 1 pk.n ≡ true
      above_one = ground (arith, key.n_large)

      point : share_point c (points s) i ≡ scale generator (from_nat x)
      point =
          share_point-eval c (poly s) i
          ∙ ap (scale generator) (sym (Laws.from_nat-be_value c (share_for s i)))

  -- What the parties send in rounds 2 and 3, where `sealed s i` is the share that `s` seals for `i`.
  abbrev pub msg2 : ℕ → Round2Msg
  msg2 j = record {
    commitment =
        keygen_commitment c big sha256 (compute_commitment c sha256 sid j (points j))
          (to_be_bytes (draws j).nonce);
  }

  module _ (sealed : ℕ → ℕ → ℤ × LogProof c) where
    abbrev pub msg3 : ℕ → Round3Msg c
    msg3 j = record {
      nonce = to_be_bytes (draws j).nonce;
      polynomial_coeff_points = points j;
      encrypted_shares = map (sealed j) (others j (range_from 0 n));
      schnorr_proof =
          prove_schnorr c sha256 (draws j).ec_secret (scale generator (draws j).ec_secret) sid
            (draws j).schnorr_alpha;
    }

    -- The party `s` seals its share for the party `i`, who has a key pair, with numbers in range.
    pub record Seals (s i : ℕ) : Type 0 where
      pub key : IsKeypair (pk_of c big sha256 draws sid i) (draws i).kp.sk
      pub drawn : DrawnFor s i
      pub made :
          seal_share c big sha256
            (draws s)
            sid
            (points s)
            (share_for s i)
            (pk_of c big sha256 draws sid i)
            i
          ≡ some (sealed s i)

    pub encrypt_shares-others :
        (i a m : ℕ) (shares : List Scalar) (pks : List (Option PaillierPublicKey))
        → All
            (λ j.
              (get_elem? pks j ≡ some (some (pk_of c big sha256 draws sid j)))
              × (get_elem? shares j ≡ some (share_for i j)))
            (range_from a m)
        → All (Seals i) (others i (range_from a m))
        → encrypt_shares c big sha256 (draws i) i sid (points i) shares pks (range_from a m)
          ≡ some (map (sealed i) (others i (range_from a m)))
    unfolding encrypt_shares
    encrypt_shares-others i a zero shares pks known seals = refl
    encrypt_shares-others i a (suc m) shares pks ((k, s), known) seals =
        elim (Bool-cases (a == i)) [
          | inl e ↦ rw e (encrypt_shares-others i (suc a) m shares pks known (rw e at seals))
          | inr e ↦
              let both : Seals i a × All (Seals i) (others i (range_from (suc a) m)) =
                rw e at seals in
              rw (e, k, s, both.0.made, encrypt_shares-others i (suc a) m shares pks known both.1)
                refl
        ]

    -- A party opens the share that another sealed for it.
    open_share-sealed :
        {R S : Type 0} (s i : ℕ)
        → i < n
        → (s == i) ≡ false
        → Seals s i
        → open_share c big sha256 {R = R} {S = S} i sid (draws i).kp s (msg3 s) ≡ ok (share_for s i)
    unfolding open_share
    open_share-sealed s i h ne seals =
        let (ct, proof, e, accepted, opened) = seal_share-opens s i seals.key seals.drawn in
        rw
          (
            get_elem?-enc_idx (sealed s) s i n h ne,
            some_inj (sym seals.made ∙ e),
            accepted,
            opened,
            from_magnitude c big (be_value (to_be_bytes (share_for s i))),
            Laws.from_nat-be_value c (share_for s i),
          )
          refl

    -- One message of round 3 adds the sender's share and its point.
    add_round3-honest :
        {R S : Type 0} (s i : ℕ) (round2_msgs : List (ℕ × Round2Msg)) (combined_share : Scalar)
        (public_key : Point)
        → i < n
        → (s == i) ≡ false
        → Seals s i
        → find_round2 s round2_msgs ≡ some (msg2 s)
        → add_round3 c big sha256 {R = R} {S = S} i sid
            (draws i).kp
            round2_msgs
            (combined_share, public_key)
            s
            (msg3 s)
          ≡ ok (
            add combined_share (share_for s i),
            padd public_key (scale generator (draws s).ec_secret),
          )
    unfolding add_round3 coefficients
    add_round3-honest {R} {S} s i round2_msgs combined_share public_key h ne seals found =
        rw
          (
            found,
            same_bytes_refl (
                keygen_commitment c big sha256 (compute_commitment c sha256 sid s (points s))
                  (to_be_bytes (draws s).nonce)),
            prove_schnorr-accepted c sha256 (draws s).ec_secret sid (draws s).schnorr_alpha,
            ne,
            open_share-sealed {R = R} {S = S} s i h ne seals,
          )
          refl

    -- The senders other than `i` whose commitments are known.
    pub record Sends (i : ℕ) (round2_msgs : List (ℕ × Round2Msg)) (s : ℕ) : Type 0 where
      pub other : (s == i) ≡ false
      pub seals : Seals s i
      pub found : find_round2 s round2_msgs ≡ some (msg2 s)

    pub add_round3_all-honest :
        {R S : Type 0} (i : ℕ) (round2_msgs : List (ℕ × Round2Msg)) (senders : List ℕ)
        (combined_share : Scalar) (public_key : Point)
        → i < n
        → All (Sends i round2_msgs) senders
        → add_round3_all c big sha256 {R = R} {S = S} i sid
            (draws i).kp
            round2_msgs
            (combined_share, public_key)
            (map (λ j. (j, msg3 j)) senders)
          ≡ ok (
            add combined_share (sum_over c senders (λ j. share_for j i)),
            padd public_key (scale generator (sum_over c senders (λ j. (draws j).ec_secret))),
          )
    unfolding add_round3_all sum_over
    add_round3_all-honest i round2_msgs [] combined_share public_key h all = ap ok (λ k. (
      sym (Laws.add-zero c combined_share) k,
      (sym (Laws.padd-identity c public_key) ∙ ap (padd public_key) (sym (scale-zero generator))) k,
    ))
    add_round3_all-honest {R} {S} i round2_msgs (s ∷ senders) combined_share public_key h
          (sends, all) =
        rw
          (add_round3-honest {R = R} {S = S} s i round2_msgs combined_share public_key h sends.other
            sends.seals sends.found)
          (add_round3_all-honest {R = R} {S = S} i round2_msgs senders _ _ h all
            ∙ ap ok (λ k. (
              add_assoc combined_share (share_for s i) (sum_over c senders (λ j. share_for j i)) k,
              (padd_assoc public_key (scale generator (draws s).ec_secret) (scale generator rest)
                    ∙ ap (padd public_key) (sym (scale-add generator (draws s).ec_secret rest)))
                  k,
            )))
      where
        rest : Scalar
        rest = sum_over c senders (λ j. (draws j).ec_secret)
