-- ===== src/Lindell/Dkg/Rounds.antt =====
-- The loops of the key generation, on what honest parties send.
use govis.Prelude.{
  ℕ, zero, suc, ◌+◌, ◌≤◌, ◌<◌, ◌==◌, ==_iff, ==_refl, if◌then◌else◌, none, some, List, [], ◌∷◌,
  ◌++◌, map, range_from, get_elem?, is_yes_of, ok, Bool-cases, inl, inr, ◌≡◌, refl, sym, ap, ◌∙◌,
  arith, All, All-map, false,
}
use govis.Prelude.Bytes.{same_bytes_refl}
use govis.Net.{Sent, p2p}
use govis.Curve.{Curve}
use govis.Curve.Laws
use govis.Vss.{compute_commitment}
use govis.Vss.Polynomial.{eval}
use govis.Vss.Shares.{share_point-eval}
use govis.Vss.Lagrange.{coord}
use govis.Vss.Lagrange.Interpolation.{sum_over}
use govis.Lindell.{CommitMsg, RevealMsg, ShareMsg, Msg, round3}
use govis.Lindell.Dkg.{Network, check_reveals, send_shares, find_reveal, add_checked_shares}
use mathlib.Core.List.{append-nil, append_assoc}

-- The parties of the list but one.
abbrev pub others : ℕ → List ℕ → List ℕ
others i [] = []
others i (j ∷ parties) = if j == i then others i parties else j ∷ others i parties

module _ (c : Curve) (sha256 : List ℕ → List ℕ) where
  open c use {
    Scalar, Point, point_eq, zero_s, add, generator, padd, scale, add_assoc, add_comm, scale-add,
    padd_assoc, scale-zero,
  }

  -- Every party `j` has a polynomial `f j`, with the constant term `s j`.
  module _ (s : ℕ → Scalar) (rest : ℕ → List Scalar) where
    abbrev pub poly : ℕ → List Scalar
    poly j = s j ∷ rest j

    abbrev pub reveal_of : ℕ → RevealMsg c
    reveal_of j = record { public_coeffs = map (scale generator) (poly j) }

    abbrev pub hashes_of : List ℕ → List ℕ → List (ℕ × CommitMsg)
    hashes_of sid parties =
        map
          (λ j. (
            j,
            record {
              commitment = compute_commitment c sha256 sid j (map (scale generator) (poly j));
            },
          ))
          parties

    abbrev pub reveals_of : List ℕ → List (ℕ × RevealMsg c)
    reveals_of parties = map (λ j. (j, reveal_of j)) parties

    -- What the party `i` receives in round 3.
    abbrev pub shares_of : ℕ → List ℕ → List (ℕ × ShareMsg c)
    shares_of i parties = map (λ j. (j, record { share = eval c (poly j) (coord c i) })) parties

    -- No honest party is accused, and the constant terms add up.
    pub check_reveals-honest :
        {R S : Type 0} (sid : List ℕ) (parties : List ℕ) (combined_pk : Point)
        (found : List (ℕ × RevealMsg c))
        → check_reveals c sha256 {R = R} {S = S} sid
            (hashes_of sid parties)
            (reveals_of parties)
            combined_pk
            found
          ≡ ok (
            padd combined_pk (scale generator (sum_over c parties s)),
            found ++ reveals_of parties,
          )
    unfolding check_reveals sum_over
    check_reveals-honest sid [] combined_pk found =
        ap ok (λ k. (sym (Laws.padd-identity c combined_pk) k, sym (append-nil found) k))
        ∙ ap (λ p. ok (padd combined_pk p, found ++ [])) (sym (scale-zero generator))
    check_reveals-honest sid (j ∷ parties) combined_pk found =
        rw (same_bytes_refl (compute_commitment c sha256 sid j (map (scale generator) (poly j)))) (
          check_reveals-honest sid parties (padd combined_pk (scale generator (s j)))
            (found ++ ((j, reveal_of j) ∷ []))
          ∙ ap ok (λ k. (
            (padd_assoc combined_pk (scale generator (s j)) (scale generator (sum_over c parties s))
                  ∙ ap (padd combined_pk) (sym (scale-add generator (s j) (sum_over c parties s))))
                k,
            append_assoc found ((j, reveal_of j) ∷ []) (reveals_of parties) k,
          )))

    reveals_found :
        (parties : List ℕ)
        → All (λ j. find_reveal c sha256 j (reveals_of parties) ≡ some (reveal_of j)) parties
    unfolding find_reveal
    reveals_found [] = tt
    reveals_found (x ∷ parties) =
        (rw (==_refl x), All-map parties (λ j h. keep j h) (reveals_found parties))
      where
        keep :
            (j : ℕ)
            → find_reveal c sha256 j (reveals_of parties) ≡ some (reveal_of j)
            → find_reveal c sha256 j (reveals_of (x ∷ parties)) ≡ some (reveal_of j)
        keep j h = elim (Bool-cases (x == j)) [
          | inl e ↦ rw e (ap (λ k. some (reveal_of k)) ((==_iff x j).0 e))
          | inr e ↦ rw e h
        ]

    add_checked_shares-found :
        {R S : Type 0} (i : ℕ) (reveals : List (ℕ × RevealMsg c)) (parties : List ℕ)
        (final_share : Scalar)
        → All (λ j. find_reveal c sha256 j reveals ≡ some (reveal_of j)) parties
        → add_checked_shares c sha256 {R = R} {S = S} i reveals final_share (shares_of i parties)
          ≡ ok (add final_share (sum_over c parties (λ j. eval c (poly j) (coord c i))))
    unfolding add_checked_shares sum_over
    add_checked_shares-found i reveals [] final_share h = ap ok (sym (Laws.add-zero c final_share))
    add_checked_shares-found i reveals (j ∷ parties) final_share (h, hs) =
        rw (h, is_yes_of (point_eq _ _) (sym (share_point-eval c (poly j) i)))
          (add_checked_shares-found i reveals parties
              (add final_share (eval c (poly j) (coord c i))) hs
            ∙ ap ok (add_assoc final_share _ _))

    -- Every share of an honest sender passes the check of its receiver.
    pub add_checked_shares-honest :
        {R S : Type 0} (i : ℕ) (parties : List ℕ) (final_share : Scalar)
        → add_checked_shares c sha256 {R = R} {S = S} i
            (reveals_of parties)
            final_share
            (shares_of i parties)
          ≡ ok (add final_share (sum_over c parties (λ j. eval c (poly j) (coord c i))))
    add_checked_shares-honest i parties final_share =
        add_checked_shares-found i (reveals_of parties) parties final_share (reveals_found parties)

  others_after : (i a n : ℕ) → i < a → others i (range_from a n) ≡ range_from a n
  others_after i a zero h = refl
  others_after i a (suc n) h =
      let ne : (a == i) ≡ false = ground arith in
      rw ne (ap (λ l. a ∷ l) (others_after i (suc a) n (omega arith)))

  -- A party's own term and those of the others make the sum over all.
  pub sum_over-others :
      (f : ℕ → Scalar) (i a n : ℕ)
      → a ≤ i
      → i < a + n
      → add (f i) (sum_over c (others i (range_from a n)) f) ≡ sum_over c (range_from a n) f
  unfolding sum_over
  sum_over-others f i a zero h l = absurd (omega arith)
  sum_over-others f i a (suc n) h l = elim (Bool-cases (a == i)) [
    | inl e ↦
        rw (e, others_after i (suc a) n (omega (arith, (==_iff a i).0 e)))
          (ap (λ k. add (f k) (sum_over c (range_from (suc a) n) f)) (sym ((==_iff a i).0 e)))
    | inr e ↦ rw e (
        Laws.add_left_comm c (f i) (f a) _
        ∙ ap (add (f a)) (sum_over-others f i (suc a) n (ground arith) (omega arith)))
  ]

  -- The messages of round 3: every other party's share.
  abbrev pub outbox : (ℕ → Scalar) → ℕ → List ℕ → List (Sent (Msg c))
  outbox share i [] = []
  outbox share i (j ∷ parties) =
      if j == i
      then outbox share i parties
      else p2p j (round3 (record { share = share j })) ∷ outbox share i parties

  pub send_shares-outbox :
      {R S : Type 0} (net : Network c R S) (i : ℕ) (secret_shares : List Scalar)
      (share : ℕ → Scalar) (parties : List ℕ)
      → ((m : Sent (Msg c)) → net.on_send m ≡ none)
      → All (λ j. get_elem? secret_shares j ≡ some (share j)) parties
      → send_shares c sha256 net i secret_shares parties ≡ (outbox share i parties, ok tt)
  unfolding send_shares
  send_shares-outbox net i secret_shares share [] h hs = refl
  send_shares-outbox net i secret_shares share (j ∷ parties) h (g, gs) =
      elim (Bool-cases (j == i)) [
        | inl e ↦ rw e (send_shares-outbox net i secret_shares share parties h gs)
        | inr e ↦ rw (e, g, h, send_shares-outbox net i secret_shares share parties h gs) refl
      ]
