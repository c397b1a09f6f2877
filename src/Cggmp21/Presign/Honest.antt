-- ===== src/Cggmp21/Presign/Honest.antt =====
-- A run of presigning in which every signer follows the protocol.
use govis.Prelude.{
  ℕ, suc, ◌+◌, ◌%◌, ◌^◌, ◌<◌, ◌==◌, none, some, some_inj, List, [], ◌∷◌, length, ok, Bool-cases,
  inl, inr, ◌≡◌, refl, sym, ap, ◌∙◌, arith,
}
use govis.Prelude.Int.{pos}
use govis.Net.{Sent, broadcast}
use govis.Big.{Big}
use govis.Curve.{Curve}
use govis.Curve.Laws
use govis.Vss.{point_x_coord, scalar_to_bigint}
use govis.Vss.Lagrange.Interpolation.{sum_over}
use govis.Paillier.{PaillierPublicKey}
use govis.Paillier.Plaintext.{IsKeypair, decrypt-Opens}
use govis.Cggmp21.OnlineSign.{position}
use govis.Cggmp21.OnlineSign as Online
use govis.Cggmp21.OnlineSign.Delivered.{inbox, add_shares-inbox_take, add_shares-inbox, position_lt}
use govis.Cggmp21.Presign.{
  PresignMsg, EncryptedKMsg, RevealMsg, Network, Draws, round0, round1, round2, encrypt_k,
  add_plaintexts, run_presign,
}
use govis.Cggmp21.Presign.Checked.{padd_all}
use govis.Cggmp21.Presign.Peers.{
  from_others, from_others_take, AllAt, AllAt-map, rebuilt, pk_msg, known_pks,
  store_pks-from_others, known_pks-Known,
}
use govis.Cggmp21.Presign.Rounds.{
  commit_msg, reveal_msg, outbox, add_reveals-from_others, send_encrypted-outbox,
}
use govis.Cggmp21.Presign.Nonces.{
  value, DrawnFor, encrypt_k-Opens, ReadsModuloOrder, value_sum, Decrypts,
  add_plaintexts-from_others,
}
use mathlib.Core.List.{append-nil}
use mathlib.Core.Path.{subst}
use native.Mathlib.Nat.{mod-eq_of_lt}

module _ (c : Curve) (big : Big) (sha256 : List ℕ → List ℕ) (draws : ℕ → Draws c) where
  open c use {
    Scalar, Point, zero_s, add, invert, from_nat, generator, padd, scale, scale-add, zero-add,
    from_be_bytes_mod_order, from_be_bytes-be_value,
  }

  abbrev pub nonce : ℕ → Scalar
  nonce j = (draws j).k_scalar

  -- The revealed points add up to the generator times the sum of the nonces.
  padd_all-from_others :
      (local_i p : ℕ) (signers : List ℕ) (a : Scalar)
      → padd_all c big sha256
          (scale generator a)
          (from_others (reveal_msg c big sha256 draws) local_i p signers)
        ≡ scale generator (Online.add_shares c local_i a (inbox c nonce local_i p signers))
  unfolding Online.add_shares
  padd_all-from_others local_i p [] a = refl
  padd_all-from_others local_i p (j ∷ signers) a = elim (Bool-cases (p == local_i)) [
    | inl h ↦ rw h (padd_all-from_others local_i (suc p) signers a)
    | inr h ↦
        ap (padd_all c big sha256 (scale generator a))
          (from_others_take (reveal_msg c big sha256 draws) local_i p j signers h)
        ∙ ap (λ t. padd_all c big sha256 t later) (sym (scale-add generator a (nonce j)))
        ∙ padd_all-from_others local_i (suc p) signers (add a (nonce j))
        ∙ ap (scale generator) (sym (add_shares-inbox_take c nonce local_i p j signers a h))
  ]
    where
      later : List (ℕ × RevealMsg c)
      later = from_others (reveal_msg c big sha256 draws) local_i (suc p) signers

  -- The signer `i` at position `q` and the signer `j` at position `p`, who send each other encrypted
  -- nonces: `j` has a key pair, the numbers that they draw for each other are in range, the nonce of `j`
  -- is below the modulus of `i`, and `msg p j` is what `j` sends to `i` in round 3.
  pub record Pair (i q : ℕ) (msg : ℕ → ℕ → EncryptedKMsg) (p j : ℕ) : Type 0 where
    pub key : IsKeypair (draws j).kp.pk (draws j).kp.sk
    pub drawn : DrawnFor c big sha256 (draws i) (draws j).kp p
    pub answered : DrawnFor c big sha256 (draws j) (draws i).kp q
    pub fits : value c big sha256 (nonce j) < (draws i).kp.pk.n
    pub sent : encrypt_k c big sha256 (draws j) (rebuilt (draws i).kp.pk) q ≡ some (msg p j)

  Pair-Decrypts :
      (i q : ℕ) (msg : ℕ → ℕ → EncryptedKMsg)
      → IsKeypair (draws i).kp.pk (draws i).kp.sk
      → (p j : ℕ) → Pair i q msg p j
      → Decrypts c big sha256 nonce (draws i).kp msg p j
  Pair-Decrypts i q msg key p j pair =
      let (made, ct, e, shares, opens) =
        encrypt_k-Opens c big sha256 (draws j) (draws i).kp q key pair.answered in
      (
        ct,
        subst (λ m. m.c_k_share ≡ some (pos ct)) (some_inj (sym e ∙ pair.sent)) shares,
        decrypt-Opens big (draws i).kp.pk (draws i).kp.sk key ct (value c big sha256 (nonce j))
              opens
            ∙ ap (λ t. some (pos t)) (mod-eq_of_lt pair.fits),
      )

  Pair-made :
      (i q : ℕ) (msg : ℕ → ℕ → EncryptedKMsg) (p j : ℕ)
      → Pair i q msg p j
      → (m : EncryptedKMsg) × (encrypt_k c big sha256 (draws i) (rebuilt (draws j).kp.pk) p
          ≡ some m)
  Pair-made i q msg p j pair =
      let (m, ct, e, shares, opens) =
        encrypt_k-Opens c big sha256 (draws i) (draws j).kp p pair.key pair.drawn in
      (m, e)

  abbrev pub pk_of : ℕ → PaillierPublicKey
  pk_of j = (draws j).kp.pk

  -- A signer's honest run. No send fails, and the rounds deliver what the other signers send; every other
  -- signer forms a `Pair` with this one; numbers up to the sum of the nonces are read modulo the order;
  -- the sum of the nonces has the inverse `k_inv`, and its point the x-coordinate `r`.
  -- Then the run of the signer `i`, at position `q`, broadcasts its key, its commitment and its point,
  -- sends each other signer its encrypted nonce, and ends with the sum of all nonces, the same for every
  -- signer, its inverse, its point and the x-coordinate.
  pub run_presign-honest :
      {R S : Type 0} (net : Network c R S) (i q : ℕ) (signers : List ℕ)
      (msg : ℕ → ℕ → EncryptedKMsg) (r k_inv : Scalar)
      → length signers < 65536
      → position i signers ≡ some q
      → IsKeypair (pk_of i) (draws i).kp.sk
      → AllAt (Pair i q msg) 0 signers
      → ReadsModuloOrder c big sha256
          (value c big sha256 (nonce i) + value_sum c big sha256 nonce signers)
      → invert (sum_over c signers nonce) ≡ some k_inv
      → point_x_coord c (scale generator (sum_over c signers nonce)) ≡ some r
      → ((m : Sent (PresignMsg c)) → net.on_send m ≡ none)
      → net.on_flush ≡ none
      → net.round0_msgs ≡ ok (from_others (pk_msg pk_of) q 0 signers)
      → net.round1_msgs ≡ ok (from_others (commit_msg c big sha256 draws) q 0 signers)
      → net.round2_msgs ≡ ok (from_others (reveal_msg c big sha256 draws) q 0 signers)
      → net.round3_msgs ≡ ok (from_others msg q 0 signers)
      → run_presign c big sha256 net i signers (draws i) ≡ (
        broadcast (round0 (pk_msg pk_of q i))
            ∷ broadcast (round1 (commit_msg c big sha256 draws q i))
            ∷ broadcast (round2 (reveal_msg c big sha256 draws q i))
            ∷ outbox c big sha256 draws i q 0 signers,
        ok (record {
          k = sum_over c signers nonce;
          k_inv = k_inv;
          r = r;
          r_point = scale generator (sum_over c signers nonce);
        }),
      )
  unfolding run_presign scalar_to_bigint
  run_presign-honest {R} {S} net i q signers msg r k_inv small hq key pairs reads hinv hr sends
        flushes m0 m1 m2 m3 =
      rw
        (
          hq,
          index,
          count,
          sends,
          m0,
          store_pks-from_others pk_of q [] 0 signers refl,
          sends,
          m1,
          sends,
          m2,
          add_reveals-from_others c big sha256 draws {R = R} {S = S} q signers
              (scale generator (nonce i)),
          point,
          hr,
          send_encrypted-outbox c big sha256 draws {R = R} net.on_send i q 0
              (known_pks pk_of q 0 signers) signers sends (known_pks-Known pk_of q 0 signers)
              (AllAt-map (Pair-made i q msg) 0 signers pairs),
          flushes,
          m3,
          total.1,
          final,
          hinv,
        )
        (simp append-nil)
    where
      index : q % 2 ^ 16 ≡ q
      index = omega (arith, position_lt i signers q hq)

      count : length signers % 2 ^ 16 ≡ length signers
      count = omega (arith, small)

      whole : Online.add_shares c q (nonce i) (inbox c nonce q 0 signers) ≡ sum_over c signers nonce
      whole =
          ap (λ t. Online.add_shares c q t (inbox c nonce q 0 signers)) (sym (zero-add (nonce i)))
          ∙ add_shares-inbox c nonce i q 0 q signers zero_s hq (omega arith)
          ∙ zero-add _

      point :
          padd_all c big sha256
            (scale generator (nonce i))
            (from_others (reveal_msg c big sha256 draws) q 0 signers)
          ≡ scale generator (sum_over c signers nonce)
      point = padd_all-from_others q 0 signers (nonce i) ∙ ap (scale generator) whole

      total :
          (t : ℕ) × (add_plaintexts c big sha256
              (draws i).kp
              q
              (pos (value c big sha256 (nonce i)))
              (from_others msg q 0 signers)
            ≡ some (pos t))
          × (from_nat t
              ≡ Online.add_shares c q
                  (from_nat (value c big sha256 (nonce i)))
                  (inbox c nonce q 0 signers))
      total =
          add_plaintexts-from_others c big sha256 nonce (draws i).kp msg q 0
            (value c big sha256 (nonce i)) _ signers reads (omega arith)
            (AllAt-map (Pair-Decrypts i q msg key) 0 signers pairs)

      final : from_be_bytes_mod_order (big.to_bytes_be total.0) ≡ sum_over c signers nonce
      final =
          from_be_bytes-be_value (big.to_bytes_be total.0)
          ∙ ap from_nat (big.be_value-to_bytes_be total.0)
          ∙ total.2
          ∙ ap (λ t. Online.add_shares c q t (inbox c nonce q 0 signers))
              (Laws.from_nat-be_value c (nonce i))
          ∙ whole
