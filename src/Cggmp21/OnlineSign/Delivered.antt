-- ===== src/Cggmp21/OnlineSign/Delivered.antt =====
-- The loops of the online phase, on what honest signers send.
use govis.Prelude.{
  ℕ, suc, ◌+◌, ◌%◌, ◌^◌, ◌<◌, ◌==◌, ==_iff, if◌then◌else◌, none, some, some_inj, List, [], ◌∷◌,
  length, ok, Bool-cases, Option-cases, inl, inr, ◌≡◌, refl, sym, ap, ◌∙◌, arith, All, true, false,
}
use govis.Net.{Sent, p2p}
use govis.Curve.{Curve}
use govis.Curve.Laws
use govis.Vss.Lagrange.Interpolation.{sum_over}
use govis.Cggmp21.OnlineSign.{
  SignatureShareMsg, OnlineSignMsg, round1, Network, position, send_shares, add_shares,
}
use mathlib.Core.Path.{subst}

pub position_All {κ} :
    (P : ℕ → Type κ) (i : ℕ) (signers : List ℕ) (q : ℕ)
    → position i signers ≡ some q
    → All P signers
    → P i
unfolding position
position_All P i [] q h ps = cc
position_All P i (s ∷ signers) q h (p, ps) = elim (Bool-cases (s == i)) [
  | inl e ↦ subst P ((==_iff s i).0 e) p
  | inr e ↦ elim (Option-cases (position i signers)) [
    | inl n ↦ absurd (cc (rw (e, n) at h))
    | inr (q', n) ↦ position_All P i signers q' n ps
  ]
]

pub position_lt :
    (i : ℕ) (signers : List ℕ) (q : ℕ) → position i signers ≡ some q → q < length signers
unfolding position
position_lt i [] q h = cc
position_lt i (s ∷ signers) q h = elim (Bool-cases (s == i)) [
  | inl e ↦ ground arith
  | inr e ↦ elim (Option-cases (position i signers)) [
    | inl n ↦ absurd (cc (rw (e, n) at h))
    | inr (q', n) ↦ ground (arith, position_lt i signers q' n)
  ]
]

module _ (c : Curve) where
  open c use {
    Scalar, add, from_be_bytes_mod_order, to_be_bytes, from-to_be_bytes, add_assoc, add_comm,
  }

  -- What the signer at position `local_i` receives when the signer `j` has the share `share j`.
  abbrev pub inbox : (ℕ → Scalar) → ℕ → ℕ → List ℕ → List (ℕ × SignatureShareMsg)
  inbox share local_i p [] = []
  inbox share local_i p (j ∷ signers) =
      if p == local_i
      then inbox share local_i (suc p) signers
      else (p, record { s_i = to_be_bytes (share j) }) ∷ inbox share local_i (suc p) signers

  -- The messages that it sends to the positions listed.
  abbrev pub outbox : List ℕ → ℕ → List ℕ → List (Sent OnlineSignMsg)
  outbox s_i_bytes local_i [] = []
  outbox s_i_bytes local_i (p ∷ peers) =
      if p == local_i
      then outbox s_i_bytes local_i peers
      else p2p p (round1 (record { s_i = s_i_bytes })) ∷ outbox s_i_bytes local_i peers

  pub send_shares-outbox :
      {R S : Type 0} (net : Network R S) (local_i : ℕ) (s_i_bytes : List ℕ) (peers : List ℕ)
      → All (λ p. p < 65536) peers
      → ((m : Sent OnlineSignMsg) → net.on_send m ≡ none)
      → send_shares c net local_i s_i_bytes peers ≡ (outbox s_i_bytes local_i peers, ok tt)
  unfolding send_shares
  send_shares-outbox net local_i s_i_bytes [] small h = refl
  send_shares-outbox net local_i s_i_bytes (p ∷ peers) (fits, small) h =
      let cast : p % 2 ^ 16 ≡ p = omega (arith, fits) in
      elim (Bool-cases (p == local_i)) [
        | inl e ↦ rw (cast, e) (send_shares-outbox net local_i s_i_bytes peers small h)
        | inr e ↦ rw (cast, e, h, send_shares-outbox net local_i s_i_bytes peers small h) refl
      ]

  pub inbox_skip :
      (share : ℕ → Scalar) (local_i p j : ℕ) (signers : List ℕ)
      → (p == local_i) ≡ true
      → inbox share local_i p (j ∷ signers) ≡ inbox share local_i (suc p) signers
  inbox_skip share local_i p j signers e = rw e

  add_shares_cons :
      (acc : Scalar) (local_i p : ℕ) (msg1 : SignatureShareMsg)
      (msgs : List (ℕ × SignatureShareMsg))
      → add_shares c local_i acc ((p, msg1) ∷ msgs)
        ≡ add_shares c local_i
            (if p == local_i then acc else add acc (from_be_bytes_mod_order msg1.s_i))
            msgs
  unfolding add_shares
  add_shares_cons acc local_i p msg1 msgs = refl

  -- A share received from another position is added.
  pub add_shares-inbox_take :
      (share : ℕ → Scalar) (local_i p j : ℕ) (signers : List ℕ) (acc : Scalar)
      → (p == local_i) ≡ false
      → add_shares c local_i acc (inbox share local_i p (j ∷ signers))
        ≡ add_shares c local_i (add acc (share j)) (inbox share local_i (suc p) signers)
  add_shares-inbox_take share local_i p j signers acc e =
      ap (add_shares c local_i acc) {y = (p, record { s_i = to_be_bytes (share j) }) ∷ later} (rw e)
      ∙ add_shares_cons acc local_i p (record { s_i = to_be_bytes (share j) }) later
      ∙ ap
          (λ b.
            add_shares c local_i
              (if b then acc else add acc (from_be_bytes_mod_order (to_be_bytes (share j)))) later)
          e
      ∙ ap (λ t. add_shares c local_i (add acc t) later) (from-to_be_bytes (share j))
    where
      later : List (ℕ × SignatureShareMsg)
      later = inbox share local_i (suc p) signers

  add_shares_after :
      (share : ℕ → Scalar) (local_i p : ℕ) (signers : List ℕ) (acc : Scalar)
      → local_i < p
      → add_shares c local_i acc (inbox share local_i p signers)
        ≡ add acc (sum_over c signers share)
  unfolding add_shares sum_over
  add_shares_after share local_i p [] acc h = sym (Laws.add-zero c acc)
  add_shares_after share local_i p (j ∷ signers) acc h = elim (Bool-cases (p == local_i)) [
    | inl e ↦ absurd (omega (arith, (==_iff p local_i).0 e))
    | inr e ↦
        add_shares-inbox_take share local_i p j signers acc e
        ∙ add_shares_after share local_i (suc p) signers (add acc (share j)) (omega arith)
        ∙ add_assoc acc (share j) _
  ]

  -- The party's own share and those received make the sum over all signers.
  pub add_shares-inbox :
      (share : ℕ → Scalar) (i local_i p q : ℕ) (signers : List ℕ) (acc : Scalar)
      → position i signers ≡ some q
      → local_i ≡ p + q
      → add_shares c local_i (add acc (share i)) (inbox share local_i p signers)
        ≡ add acc (sum_over c signers share)
  unfolding add_shares sum_over position
  add_shares-inbox share i local_i p q [] acc h e = cc
  add_shares-inbox share i local_i p q (j ∷ signers) acc h e = elim (Bool-cases (j == i)) [
    | inl same ↦
        let here : (p == local_i) ≡ true =
          (==_iff p local_i).1 (omega (arith, some_inj (rw same at h), e)) in
        ap (add_shares c local_i (add acc (share i))) (inbox_skip share local_i p j signers here)
        ∙ add_shares_after share local_i (suc p) signers (add acc (share i))
            (omega (arith, (==_iff p local_i).0 here))
        ∙ add_assoc acc (share i) _
        ∙ ap (λ k. add acc (add (share k) (sum_over c signers share))) (sym ((==_iff j i).0 same))
    | inr other ↦ elim (Option-cases (position i signers)) [
      | inl n ↦ absurd (cc (rw (other, n) at h))
      | inr (q', n) ↦
          let later : q ≡ suc q' = sym (some_inj (rw (other, n) at h)) in
          elim (Bool-cases (p == local_i)) [
            | inl e' ↦ absurd (omega (arith, (==_iff p local_i).0 e', later, e))
            | inr e' ↦
                add_shares-inbox_take share local_i p j signers (add acc (share i)) e'
                ∙ ap (λ t. add_shares c local_i t (inbox share local_i (suc p) signers))
                    (add_assoc acc (share i) (share j)
                      ∙ ap (add acc) (add_comm (share i) (share j))
                      ∙ sym (add_assoc acc _ _))
                ∙ add_shares-inbox share i local_i (suc p) q' signers (add acc (share j)) n
                    (omega (arith, later, e))
                ∙ add_assoc acc (share j) _
          ]
    ]
  ]
