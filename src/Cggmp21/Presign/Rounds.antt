-- ===== src/Cggmp21/Presign/Rounds.antt =====
-- The loops of presigning, on what honest signers send.
use govis.Prelude.{
  ℕ, suc, ◌<◌, ◌==◌, ==_refl, if◌then◌else◌, Option, none, some, List, [], ◌∷◌, ◌++◌, length,
  range_from, get_elem?, ok, Bool-cases, inl, inr, ◌≡◌, refl, sym, ap, ◌∙◌, arith, false,
}
use govis.Prelude.Bytes.{same_bytes_refl}
use govis.Net.{Sent, p2p}
use govis.Big.{Big}
use govis.Curve.{Curve}
use govis.Paillier.{PaillierPublicKey}
use govis.Cggmp21.Presign.{
  CommitMsg, RevealMsg, EncryptedKMsg, PresignMsg, round3, Draws, find_commit, presign_commitment,
  add_reveals, encrypt_k, send_encrypted,
}
use govis.Cggmp21.Presign.Checked.{padd_all}
use mathlib.Core.Path.{subst}
use govis.Cggmp21.Presign.Peers.{
  from_others, AllAt, from_others_skip, from_others_take, rebuilt, Known,
}

module _ (c : Curve) (big : Big) (sha256 : List ℕ → List ℕ) (draws : ℕ → Draws c) where
  open c use {Point, padd, scale, generator}

  abbrev pub commit_msg : ℕ → ℕ → CommitMsg
  commit_msg p j = record {
    commitment = presign_commitment c big sha256 p (scale generator (draws j).k_scalar);
  }

  abbrev pub reveal_msg : ℕ → ℕ → RevealMsg c
  reveal_msg p j = record { r_point = scale generator (draws j).k_scalar }

  -- The signers' commitments are found under their positions.
  abbrev Found : List (ℕ × CommitMsg) → ℕ → ℕ → List ℕ → Type 0
  Found commits local_i p [] = Unit
  Found commits local_i p (j ∷ signers) =
      ((p == local_i) ≡ false → find_commit p commits ≡ some (commit_msg p j))
      × Found commits local_i (suc p) signers

  Found-cons :
      (s : ℕ) (msg : CommitMsg) (commits : List (ℕ × CommitMsg)) (local_i p : ℕ) (signers : List ℕ)
      → s < p
      → Found commits local_i p signers
      → Found ((s, msg) ∷ commits) local_i p signers
  unfolding find_commit
  Found-cons s msg commits local_i p [] h found = tt
  Found-cons s msg commits local_i p (j ∷ signers) h (found, later) = (
    λ e. rw (differ) (found e),
    Found-cons s msg commits local_i (suc p) signers (omega arith) later,
  )
    where
      differ : (s == p) ≡ false
      differ = ground arith

  Found-from_others :
      (local_i p : ℕ) (signers : List ℕ)
      → Found (from_others commit_msg local_i p signers) local_i p signers
  unfolding find_commit
  Found-from_others local_i p [] = tt
  Found-from_others local_i p (j ∷ signers) = elim (Bool-cases (p == local_i)) [
    | inl h ↦
        subst (λ m. Found m local_i p (j ∷ signers))
          (sym (from_others_skip commit_msg local_i p j signers h))
          (λ e. absurd (cc (h, e)), Found-from_others local_i (suc p) signers)
    | inr h ↦
        subst (λ m. Found m local_i p (j ∷ signers))
          (sym (from_others_take commit_msg local_i p j signers h))
          (
            λ e. rw (==_refl p) refl,
            Found-cons p (commit_msg p j) _ local_i (suc p) signers (omega arith)
                (Found-from_others local_i (suc p) signers),
          )
  ]

  add_reveals_step :
      {R S : Type 0} (commits : List (ℕ × CommitMsg)) (total : Point) (p j : ℕ)
      (msgs : List (ℕ × RevealMsg c))
      → find_commit p commits ≡ some (commit_msg p j)
      → add_reveals c big sha256 {R = R} {S = S} commits total ((p, reveal_msg p j) ∷ msgs)
        ≡ add_reveals c big sha256 {R = R} {S = S} commits
            (padd total (scale generator (draws j).k_scalar))
            msgs
  unfolding add_reveals
  add_reveals_step commits total p j msgs h =
      rw
        (
          h,
          same_bytes_refl (presign_commitment c big sha256 p (scale generator (draws j).k_scalar)),
        )
        refl

  add_reveals-Found :
      {R S : Type 0} (commits : List (ℕ × CommitMsg)) (local_i p : ℕ) (signers : List ℕ)
      (total : Point)
      → Found commits local_i p signers
      → add_reveals c big sha256 {R = R} {S = S} commits total
          (from_others reveal_msg local_i p signers)
        ≡ ok (padd_all c big sha256 total (from_others reveal_msg local_i p signers))
  unfolding add_reveals
  add_reveals-Found commits local_i p [] total found = refl
  add_reveals-Found {R} {S} commits local_i p (j ∷ signers) total (found, later) =
      elim (Bool-cases (p == local_i)) [
        | inl h ↦ rw h (add_reveals-Found commits local_i (suc p) signers total later)
        | inr h ↦
            ap (add_reveals c big sha256 {R = R} {S = S} commits total)
              (from_others_take reveal_msg local_i p j signers h)
            ∙ add_reveals_step commits total p j _ (found h)
            ∙ add_reveals-Found commits local_i (suc p) signers _ later
            ∙ rw h refl
      ]

  -- The check passes, and the points of the others are added.
  pub add_reveals-from_others :
      {R S : Type 0} (local_i : ℕ) (signers : List ℕ) (total : Point)
      → add_reveals c big sha256 {R = R} {S = S}
          (from_others commit_msg local_i 0 signers)
          total
          (from_others reveal_msg local_i 0 signers)
        ≡ ok (padd_all c big sha256 total (from_others reveal_msg local_i 0 signers))
  add_reveals-from_others local_i signers total =
      add_reveals-Found _ local_i 0 signers total (Found-from_others local_i 0 signers)

  -- What the signer `i` sends in round 3 to the signer `j` at position `p`.
  abbrev pub encrypted_for : ℕ → ℕ → ℕ → List (Sent (PresignMsg c))
  encrypted_for i p j = elim (encrypt_k c big sha256 (draws i) (rebuilt (draws j).kp.pk) p) [
    | none ↦ []
    | some msg ↦ p2p p (round3 msg) ∷ []
  ]

  abbrev pub outbox : ℕ → ℕ → ℕ → List ℕ → List (Sent (PresignMsg c))
  outbox i local_i p [] = []
  outbox i local_i p (j ∷ signers) =
      if p == local_i
      then outbox i local_i (suc p) signers
      else encrypted_for i p j ++ outbox i local_i (suc p) signers

  pub send_encrypted-outbox :
      {R S : Type 0} (on_send : Sent (PresignMsg c) → Option S) (i local_i p : ℕ)
      (pks : List (Option PaillierPublicKey)) (signers : List ℕ)
      → ((m : Sent (PresignMsg c)) → on_send m ≡ none)
      → Known (λ j. (draws j).kp.pk) pks local_i p p signers
      → AllAt
          (λ q j.
            (msg : EncryptedKMsg) × (encrypt_k c big sha256 (draws i) (rebuilt (draws j).kp.pk) q
              ≡ some msg))
          p
          signers
      → send_encrypted c big sha256 {R = R} on_send
          (draws i)
          local_i
          pks
          (range_from p (length signers))
        ≡ (outbox i local_i p signers, ok tt)
  unfolding send_encrypted
  send_encrypted-outbox {R} on_send i local_i p pks [] sends known made = refl
  send_encrypted-outbox {R} on_send i local_i p pks (j ∷ signers) sends (here, later)
        ((msg, e), made) =
      elim (Bool-cases (p == local_i)) [
        | inl h ↦
            rw h
              (send_encrypted-outbox {R = R} on_send i local_i (suc p) pks signers sends later made)
        | inr h ↦
            let known : get_elem? pks p ≡ some (some (rebuilt (draws j).kp.pk)) = rw h at here in
            rw
              (
                h,
                known,
                e,
                sends,
                send_encrypted-outbox {R = R} on_send i local_i (suc p) pks signers sends later
                    made,
              )
              (rw (◌++◌, e) refl)
      ]
