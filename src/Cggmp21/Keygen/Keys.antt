-- ===== src/Cggmp21/Keygen/Keys.antt =====
-- The keys of key generation: storing what honest parties send, and where a sender's list has a share.
use govis.Prelude.{
  ℕ, zero, suc, ◌+◌, ◌-◌, ◌≤◌, ◌<◌, ltb, ◌==◌, ==_iff, if◌then◌else◌, Option, none, some, List, [],
  ◌∷◌, ◌++◌, length, length-append, map, replicate, range_from, get_elem?, ok, Bool-cases, inl, inr,
  ◌≡◌, refl, sym, ap, ◌∙◌, arith, true, false, All,
}
use govis.Big.{Big}
use govis.Curve.{Curve}
use govis.Paillier.{PaillierPublicKey}
use govis.Paillier.Plaintext.{IsKeypair}
use govis.Zk.Blum.{BlumProof, verify_blum}
use govis.Lindell.Dkg.Rounds.{others}
use govis.Prelude.Slots.{set_elem?, set_elem?-append}
use govis.Cggmp21.Keygen.{Round1Msg, Draws, enc_idx, store_pks}
use mathlib.Core.List.{append_assoc}

-- Vectors with one entry set.
module _ {A : Type 0} (i : ℕ) (x : A) where
  abbrev pub slots : ℕ → ℕ → List (Option A)
  slots a zero = []
  slots a (suc m) = (if a == i then some x else none) ∷ slots (suc a) m

  slots_after : (a m : ℕ) → i < a → replicate m none ≡ slots a m
  slots_after a zero h = refl
  slots_after a (suc m) h =
      let ne : (a == i) ≡ false = ground arith in
      rw ne (ap (λ l. none ∷ l) (slots_after (suc a) m (omega arith)))

  set_elem?-slots :
      (a m k : ℕ) → a + k ≡ i → k < m → set_elem? k (some x) (replicate m none) ≡ some (slots a m)
  unfolding set_elem?
  set_elem?-slots a zero k e h = elim h [ ]
  set_elem?-slots a (suc m) zero e h =
      let eq : (a == i) ≡ true = ground (arith, e) in
      rw eq (ap (λ l. some (some x ∷ l)) (slots_after (suc a) m (omega (arith, e))))
  set_elem?-slots a (suc m) (suc k) e h =
      let ne : (a == i) ≡ false = ground (arith, e) in
      rw (ne, set_elem?-slots (suc a) m k (omega (arith, e)) (omega arith)) refl

  -- `vec![None; n]` with the entry `i` set.
  pub set_elem?-replicate :
      (n : ℕ) → i < n → set_elem? i (some x) (replicate n none) ≡ some (slots 0 n)
  set_elem?-replicate n h = set_elem?-slots 0 n i (omega arith) h

pub get_elem?-range :
    {A : Type 0} (f : ℕ → A) (a m k : ℕ)
    → k < m
    → get_elem? (map f (range_from a m)) k ≡ some (f (a + k))
get_elem?-range f a zero k h = elim h [ ]
get_elem?-range f a (suc m) zero h = ap (λ t. some (f t)) {x = a} {y = a + 0} (omega arith)
get_elem?-range f a (suc m) (suc k) h =
    get_elem?-range f (suc a) m k (omega arith)
    ∙ ap (λ t. some (f t)) {x = suc a + k} {y = a + suc k} (omega arith)

-- Before the sender's own place the index is the party, after it one less.
get_elem?-others_before :
    {A : Type 0} (f : ℕ → A) (s a m k : ℕ)
    → k < m
    → a + k < s
    → get_elem? (map f (others s (range_from a m))) k ≡ some (f (a + k))
get_elem?-others_before f s a zero k h l = elim h [ ]
get_elem?-others_before f s a (suc m) zero h l =
    let ne : (a == s) ≡ false = ground arith in
    rw ne (ap (λ t. some (f t)) {x = a} {y = a + 0} (omega arith))
get_elem?-others_before f s a (suc m) (suc k) h l =
    let ne : (a == s) ≡ false = ground arith in
    rw ne (
      get_elem?-others_before f s (suc a) m k (omega arith) (omega arith)
      ∙ ap (λ t. some (f t)) {x = suc a + k} {y = a + suc k} (omega arith))

others_past : (s a m : ℕ) → s < a → others s (range_from a m) ≡ range_from a m
others_past s a zero h = refl
others_past s a (suc m) h =
    let ne : (a == s) ≡ false = ground arith in
    rw ne (ap (λ l. a ∷ l) (others_past s (suc a) m (omega arith)))

get_elem?-others_after :
    {A : Type 0} (f : ℕ → A) (s a m k : ℕ)
    → suc k < m
    → a ≤ s
    → s ≤ a + k
    → get_elem? (map f (others s (range_from a m))) k ≡ some (f (a + suc k))
get_elem?-others_after f s a zero k h l u = elim h [ ]
get_elem?-others_after f s a (suc m) zero h l u =
    let eq : (a == s) ≡ true = ground arith in
    rw (eq, others_past s (suc a) m (omega arith))
      (get_elem?-range f (suc a) m 0 (omega arith)
        ∙ ap (λ t. some (f t)) {x = suc a + 0} {y = a + 1} (omega arith))
get_elem?-others_after f s a (suc m) (suc k) h l u = elim (Bool-cases (a == s)) [
  | inl e ↦
      let here : s < suc a = omega (arith, (==_iff a s).0 e) in
      rw (e, others_past s (suc a) m here)
        (get_elem?-range f (suc a) m (suc k) (omega arith)
          ∙ ap (λ t. some (f t)) {x = suc a + suc k} {y = a + suc (suc k)} (omega arith))
  | inr e ↦
      let below : a < s = ground arith in
      rw e (
        get_elem?-others_after f s (suc a) m k (omega arith) (omega arith) (omega arith)
        ∙ ap (λ t. some (f t)) {x = suc a + suc k} {y = a + suc (suc k)} (omega arith))
]

-- The index that the receiver `i` computes finds its entry in the list of the sender `s`.
pub get_elem?-enc_idx :
    {A : Type 0} (f : ℕ → A) (s i n : ℕ)
    → i < n
    → (s == i) ≡ false
    → get_elem? (map f (others s (range_from 0 n))) (enc_idx s i) ≡ some (f i)
unfolding enc_idx
get_elem?-enc_idx f s zero n h ne =
    let up : ltb s 0 ≡ false = ground arith in
    rw up (
      get_elem?-others_before f s 0 n 0 h (ground arith)
      ∙ ap (λ t. some (f t)) {x = 0 + 0} {y = 0} (omega arith))
get_elem?-enc_idx f s (suc i) n h ne = elim (Bool-cases (ltb s (suc i))) [
  | inl e ↦ rw e (
      ap (get_elem? (map f (others s (range_from 0 n)))) {x = suc i - 1} {y = i} (omega arith)
      ∙ get_elem?-others_after f s 0 n i h (omega arith) (ground arith)
      ∙ from_zero (suc i))
  | inr e ↦ rw e (get_elem?-others_before f s 0 n (suc i) h (ground arith) ∙ from_zero (suc i))
]
  where
    from_zero : (k : ℕ) → some (f (0 + k)) ≡ some (f k)
    from_zero k = ap (λ t. some (f t)) {x = 0 + k} {y = k} (omega arith)

module _ (c : Curve) (big : Big) (sha256 : List ℕ → List ℕ) (draws : ℕ → Draws c)
    (sid : List ℕ) where
  open c use {Scalar, Point, to_be_bytes, from_be_bytes_mod_order, generator, scale}

  abbrev pub pk_of : ℕ → PaillierPublicKey
  pk_of j = (draws j).kp.pk

  -- A party with a key pair and a Blum proof that is accepted.
  pub record Party (blum : ℕ → BlumProof) (j : ℕ) : Type 0 where
    pub key : IsKeypair (pk_of j) (draws j).kp.sk
    pub accepted : verify_blum big sha256 (pk_of j).n sid (blum j) ≡ some true

  abbrev pub msg1 : (ℕ → BlumProof) → ℕ → Round1Msg
  msg1 blum j = record { paillier_n = big.to_bytes_be (pk_of j).n; blum_proof = blum j }

  store_pks_step :
      {R S : Type 0} (blum : ℕ → BlumProof) (j : ℕ) (msgs : List (ℕ × Round1Msg))
      (pks pks' : List (Option PaillierPublicKey))
      → Party blum j
      → set_elem? j (some (pk_of j)) pks ≡ some pks'
      → store_pks c big sha256 {R = R} {S = S} sid ((j, msg1 blum j) ∷ msgs) pks
        ≡ store_pks c big sha256 {R = R} {S = S} sid msgs pks'
  unfolding store_pks
  store_pks_step blum j msgs pks pks' party h =
      rw
        (
          big.be_value-to_bytes_be (pk_of j).n,
          party.accepted,
          sym (party.key.g_eq),
          sym (party.key.n_sq_eq),
          h,
        )
        refl

  -- Every party ends up with the keys of all.
  pub store_pks-others :
      {R S : Type 0} (blum : ℕ → BlumProof) (i : ℕ) (done : List (Option PaillierPublicKey))
      (a m : ℕ)
      → length done ≡ a
      → All (Party blum) (others i (range_from a m))
      → store_pks c big sha256 {R = R} {S = S} sid
          (map (λ j. (j, msg1 blum j)) (others i (range_from a m)))
          (done ++ slots i (pk_of i) a m)
        ≡ ok (done ++ map (λ j. some (pk_of j)) (range_from a m))
  unfolding store_pks
  store_pks-others blum i done a zero e all = refl
  store_pks-others {R} {S} blum i done a (suc m) e all = elim (Bool-cases (a == i)) [
    | inl h ↦ rw h (
        ap
          (store_pks c big sha256 {R = R} {S = S} sid
            (map (λ j. (j, msg1 blum j)) (others i (range_from (suc a) m))))
          (sym (append_assoc done (some (pk_of i) ∷ []) (slots i (pk_of i) (suc a) m)))
        ∙ store_pks-others {R = R} {S = S} blum i (done ++ (some (pk_of i) ∷ [])) (suc a) m
            (next (some (pk_of i))) (rw h at all)
        ∙ ap ok (append_assoc done (some (pk_of i) ∷ []) _)
        ∙ ap (λ j. ok (done ++ (some (pk_of j) ∷ map (λ j. some (pk_of j)) (range_from (suc a) m))))
            (sym ((==_iff a i).0 h)))
    | inr h ↦
        let both : Party blum a × All (Party blum) (others i (range_from (suc a) m)) =
          rw h at all in
        let put : set_elem? a (some (pk_of a)) (done ++ (none ∷ slots i (pk_of i) (suc a) m))
            ≡ some (done ++ (some (pk_of a) ∷ slots i (pk_of i) (suc a) m)) =
          ap (λ k. set_elem? k (some (pk_of a)) (done ++ (none ∷ slots i (pk_of i) (suc a) m)))
            (sym e)
          ∙ set_elem?-append done (slots i (pk_of i) (suc a) m) (some (pk_of a)) none in
        rw h (
          store_pks_step {R = R} {S = S} blum a _ _
            (done ++ (some (pk_of a) ∷ slots i (pk_of i) (suc a) m)) both.0 put
          ∙ ap
              (store_pks c big sha256 {R = R} {S = S} sid
                (map (λ j. (j, msg1 blum j)) (others i (range_from (suc a) m))))
              (sym (append_assoc done (some (pk_of a) ∷ []) (slots i (pk_of i) (suc a) m)))
          ∙ store_pks-others {R = R} {S = S} blum i (done ++ (some (pk_of a) ∷ [])) (suc a) m
              (next (some (pk_of a))) both.1
          ∙ ap ok (append_assoc done (some (pk_of a) ∷ []) _))
  ]
    where
      next : (x : Option PaillierPublicKey) → length (done ++ (x ∷ [])) ≡ suc a
      next x = omega (arith, length-append done (x ∷ []), e)
