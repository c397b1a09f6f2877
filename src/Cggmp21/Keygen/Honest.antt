-- ===== src/Cggmp21/Keygen/Honest.antt =====
-- A run of key generation in which every party follows the protocol.
use govis.Prelude.{
  ℕ, zero, suc, ◌+◌, ◌≤◌, ◌<◌, ◌==◌, ==_iff, ==_refl, Option, none, some, List, [], ◌∷◌, map,
  range_from, get_elem?, ok, Bool-cases, inl, inr, ◌≡◌, refl, sym, ap, ◌∙◌, arith, false, All,
  All-map, All-zip,
}
use govis.Prelude.Int.{ℤ}
use govis.Net.{Sent, broadcast}
use govis.Big.{Big}
use govis.Curve.{Curve}
use govis.Vss.{evaluate_polynomial, coefficients}
use govis.Paillier.{PaillierPublicKey}
use govis.Vss.Shares.{evaluate_polynomial-share}
use govis.Vss.Lagrange.Interpolation.{sum_over}
use govis.Zk.Blum.{BlumProof, prove_blum}
use govis.Zk.Log.{LogProof}
use govis.Lindell.Dkg.Rounds.{others, sum_over-others}
use govis.Cggmp21.KeyData.{Cggmp21KeygenOutput}
use govis.Cggmp21.Keygen.{
  KeygenMsg, Network, Draws, round1, round2, round3, find_round2, run_keygen,
}
use govis.Cggmp21.Keygen.Keys.{
  set_elem?-replicate, Party, pk_of, msg1, store_pks-others, get_elem?-range,
}
use govis.Cggmp21.Keygen.Shares.{
  share_for, msg2, msg3, Seals, encrypt_shares-others, add_round3_all-honest,
}

-- Every number of a range has a property that the numbers below the range's end have.
All-range_from :
    {P : ℕ → Type 0} (a m n : ℕ) → a + m ≤ n → ((j : ℕ) → j < n → P j) → All P (range_from a m)
All-range_from a zero n h f = tt
All-range_from a (suc m) n h f = (f a (omega arith), All-range_from (suc a) m n (omega arith) f)

All-others :
    {P : ℕ → Type 0} (i a m n : ℕ)
    → a + m ≤ n
    → ((j : ℕ) → j < n → (j == i) ≡ false → P j)
    → All P (others i (range_from a m))
All-others {P} i a zero n h f = tt
All-others {P} i a (suc m) n h f = elim (Bool-cases (a == i)) [
  | inl e ↦ rw e (All-others {P = P} i (suc a) m n (omega arith) f)
  | inr e ↦ rw e (f a (omega arith) e, All-others {P = P} i (suc a) m n (omega arith) f)
]

flip : (i j : ℕ) → (j == i) ≡ false → (i == j) ≡ false
flip i j h = ground arith

module _ (c : Curve) (big : Big) (sha256 : List ℕ → List ℕ) (draws : ℕ → Draws c) (sid : List ℕ)
    (n t : ℕ) where
  open c use {Scalar, Point, add, to_be_bytes, generator, padd, scale, scale-add}

  found_in :
      (parties : List ℕ)
      → All
          (λ j.
            find_round2 j (map (λ j. (j, msg2 c big sha256 draws sid n t j)) parties)
            ≡ some (msg2 c big sha256 draws sid n t j))
          parties
  unfolding find_round2
  found_in [] = tt
  found_in (x ∷ parties) =
      (rw (==_refl x) refl, All-map parties (λ j h. keep j h) (found_in parties))
    where
      keep :
          (j : ℕ)
          → find_round2 j (map (λ j. (j, msg2 c big sha256 draws sid n t j)) parties)
            ≡ some (msg2 c big sha256 draws sid n t j)
          → find_round2 j (map (λ j. (j, msg2 c big sha256 draws sid n t j)) (x ∷ parties))
            ≡ some (msg2 c big sha256 draws sid n t j)
      keep j h = elim (Bool-cases (x == j)) [
        | inl e ↦ rw e (ap (λ k. some (msg2 c big sha256 draws sid n t k)) ((==_iff x j).0 e))
        | inr e ↦ rw e h
      ]

  -- An honest run. Every other party of the `n` has a key pair and an accepted Blum proof `blum j`, and
  -- the Blum proof of the party `i` is the one that its prover makes. Every two parties have key pairs of
  -- the right arithmetic and seal their shares for each other as `sealed`, with numbers drawn in range, and
  -- the number of every share is below the Paillier modulus of the party that it is sealed for. No send of
  -- the party `i < n` fails, and the rounds deliver what the other parties send. Then `i` broadcasts its key, its commitment and its message of round 3, finds no violation, and ends with
  -- the value at its coordinate of the sum of all polynomials as its share, the generator times the sum
  -- of all secrets as the public key, its own Paillier keys, and the Paillier keys of all parties.
  pub run_keygen-honest :
      {R S : Type 0} (net : Network c R S) (i : ℕ) (blum : ℕ → BlumProof)
      (sealed : ℕ → ℕ → ℤ × LogProof c)
      → i < n
      → ((j : ℕ) → j < n → (j == i) ≡ false → Party c big sha256 draws sid blum j)
      → ((s j : ℕ) → s < n → j < n → (s == j) ≡ false → Seals c big sha256 draws sid n t sealed s j)
      → prove_blum big sha256 (draws i).p (draws i).q (pk_of c big sha256 draws sid i).n sid
        ≡ some (blum i)
      → ((m : Sent (KeygenMsg c)) → net.on_send m ≡ none)
      → net.round1_msgs
        ≡ ok (map (λ j. (j, msg1 c big sha256 draws sid blum j)) (others i (range_from 0 n)))
      → net.round2_msgs
        ≡ ok (map (λ j. (j, msg2 c big sha256 draws sid n t j)) (others i (range_from 0 n)))
      → net.round3_msgs
        ≡ ok (map (λ j. (j, msg3 c big sha256 draws sid n t sealed j)) (others i (range_from 0 n)))
      → run_keygen c big sha256 net i n t sid (draws i) ≡ (
        broadcast (round1 (msg1 c big sha256 draws sid blum i))
            ∷ broadcast (round2 (msg2 c big sha256 draws sid n t i))
            ∷ broadcast (round3 (msg3 c big sha256 draws sid n t sealed i))
            ∷ [],
        ok (record {
          ec_share = sum_over c (range_from 0 n) (λ j. share_for c big sha256 draws sid n t j i);
          public_key = scale generator (sum_over c (range_from 0 n) (λ j. (draws j).ec_secret));
          paillier_sk = (draws i).kp.sk;
          paillier_pk = pk_of c big sha256 draws sid i;
          peer_paillier_pks = map (λ j. some (pk_of c big sha256 draws sid j)) (range_from 0 n);
        }),
      )
  unfolding run_keygen evaluate_polynomial coefficients
  run_keygen-honest {R} {S} net i blum sealed hi parties seals own sends m1 m2 m3 =
      rw
        (
          own,
          sends,
          m1,
          set_elem?-replicate i (pk_of c big sha256 draws sid i) n hi,
          store_pks-others c big sha256 draws sid {R = R} {S = S} blum i [] 0 n refl
              (All-others {P = Party c big sha256 draws sid blum} i 0 n n (omega arith) parties),
          sends,
          m2,
          encrypt_shares-others c big sha256 draws sid n t sealed i 0 n shares pks
              (All-range_from 0 n n (omega arith) known)
              (All-others {P = Seals c big sha256 draws sid n t sealed i} i 0 n n (omega arith)
                (λ j h ne. seals i j hi h (flip i j ne))),
          sends,
          m3,
          evaluate_polynomial-share c (draws i).ec_secret t n (draws i).coefficient i hi,
          add_round3_all-honest c big sha256 draws sid n t sealed {R = R} {S = S} i
              (map (λ j. (j, msg2 c big sha256 draws sid n t j)) (others i (range_from 0 n)))
              (others i (range_from 0 n)) (share_for c big sha256 draws sid n t i i)
              (scale generator (draws i).ec_secret) hi
              (All-zip (others i (range_from 0 n))
                (λ j a b. record { other = a.0; seals = a.1; found = b })
                (All-others
                  {P = λ j. ((j == i) ≡ false) × Seals c big sha256 draws sid n t sealed j i} i 0 n
                  n (omega arith) (λ j h ne. (ne, seals j i h hi ne)))
                (found_in (others i (range_from 0 n)))),
        )
        (ap (λ p. (log, ok (output p)))
          (λ k. (
            sum_over-others c sha256 (λ j. share_for c big sha256 draws sid n t j i) i 0 n
                (omega arith) (omega arith) k,
            (sym (scale-add generator (draws i).ec_secret _)
                  ∙ ap (scale generator) (
                      sum_over-others c sha256 (λ j. (draws j).ec_secret) i 0 n (omega arith)
                        (omega arith)))
                k,
          )))
    where
      shares : List Scalar
      shares = (evaluate_polynomial c (draws i).ec_secret t n (draws i).coefficient).1

      pks : List (Option PaillierPublicKey)
      pks = map (λ j. some (pk_of c big sha256 draws sid j)) (range_from 0 n)

      log : List (Sent (KeygenMsg c))
      log =
          broadcast (round1 (msg1 c big sha256 draws sid blum i))
          ∷ broadcast (round2 (msg2 c big sha256 draws sid n t i))
          ∷ broadcast (round3 (msg3 c big sha256 draws sid n t sealed i))
          ∷ []

      output : Scalar × Point → Cggmp21KeygenOutput c
      output total = record {
        ec_share = total.0;
        public_key = total.1;
        paillier_sk = (draws i).kp.sk;
        paillier_pk = pk_of c big sha256 draws sid i;
        peer_paillier_pks = pks;
      }

      known :
          (j : ℕ)
          → j < n
          → (get_elem? pks j ≡ some (some (pk_of c big sha256 draws sid j)))
            × (get_elem? shares j ≡ some (share_for c big sha256 draws sid n t i j))
      known j h = (
        get_elem?-range (λ j. some (pk_of c big sha256 draws sid j)) 0 n j h
            ∙ ap (λ k. some (some (pk_of c big sha256 draws sid k))) {x = 0 + j} {y = j}
                (omega arith),
        evaluate_polynomial-share c (draws i).ec_secret t n (draws i).coefficient j h,
      )
