-- ===== src/Cggmp21/Presign/Peers.antt =====
-- What the signers receive of each other, and the table of Paillier keys that they fill.
use govis.Prelude.{
  ℕ, suc, ◌^◌, ◌==◌, if◌then◌else◌, Option, none, some, List, [], ◌∷◌, ◌++◌, length, length-append,
  replicate, get_elem?, Bool-cases, inl, inr, ◌≡◌, refl, sym, ap, ◌∙◌, arith, true, false,
}
use govis.Prelude.Slots.{set_elem?, set_elem?-append}
use govis.Paillier.{PaillierPublicKey}
use govis.Cggmp21.Presign.{PaillierPkMsg, store_pks}
use mathlib.Core.List.{append_assoc}

-- What the signer at position `local_i` receives when the signer `j` at position `p` sends `f p j`:
-- everything from `p` on but its own.
abbrev pub from_others : {A : Type 0} → (ℕ → ℕ → A) → ℕ → ℕ → List ℕ → List (ℕ × A)
from_others f local_i p [] = []
from_others f local_i p (j ∷ signers) =
    if p == local_i
    then from_others f local_i (suc p) signers
    else (p, f p j) ∷ from_others f local_i (suc p) signers

-- A property of the signers from position `p` on.
abbrev pub AllAt : (ℕ → ℕ → Type 0) → ℕ → List ℕ → Type 0
AllAt P p [] = Unit
AllAt P p (j ∷ signers) = P p j × AllAt P (suc p) signers

pub AllAt-map :
    {P Q : ℕ → ℕ → Type 0}
    → ((p j : ℕ) → P p j → Q p j)
    → (p : ℕ) (signers : List ℕ) → AllAt P p signers
    → AllAt Q p signers
AllAt-map f p [] h = tt
AllAt-map f p (j ∷ signers) (h, hs) = (f p j h, AllAt-map f (suc p) signers hs)

pub from_others_skip :
    {A : Type 0} (f : ℕ → ℕ → A) (local_i p j : ℕ) (signers : List ℕ)
    → (p == local_i) ≡ true
    → from_others f local_i p (j ∷ signers) ≡ from_others f local_i (suc p) signers
from_others_skip f local_i p j signers e = rw e refl

pub from_others_take :
    {A : Type 0} (f : ℕ → ℕ → A) (local_i p j : ℕ) (signers : List ℕ)
    → (p == local_i) ≡ false
    → from_others f local_i p (j ∷ signers) ≡ (p, f p j) ∷ from_others f local_i (suc p) signers
from_others_take f local_i p j signers e = rw e refl

-- The key that a signer rebuilds from the message of another.
abbrev pub rebuilt : PaillierPublicKey → PaillierPublicKey
rebuilt pk = record { n = pk.n; n_sq = pk.n ^ 2; g = pk.g }

-- The signers' keys, by the party.
module _ (pk : ℕ → PaillierPublicKey) where
  abbrev pub pk_msg : ℕ → ℕ → PaillierPkMsg
  pk_msg p j = record { n = (pk j).n; g = (pk j).g }

  -- The keys that the signer at `local_i` ends up with.
  abbrev pub known_pks : ℕ → ℕ → List ℕ → List (Option PaillierPublicKey)
  known_pks local_i p [] = []
  known_pks local_i p (j ∷ signers) =
      (if p == local_i then none else some (rebuilt (pk j))) ∷ known_pks local_i (suc p) signers

  store_pks_skip :
      (local_i : ℕ) (msgs : List (ℕ × PaillierPkMsg)) (p j : ℕ)
      (pks pks' : List (Option PaillierPublicKey))
      → (p == local_i) ≡ false
      → set_elem? p (some (rebuilt (pk j))) pks ≡ some pks'
      → store_pks local_i ((p, pk_msg p j) ∷ msgs) pks ≡ store_pks local_i msgs pks'
  unfolding store_pks
  store_pks_skip local_i msgs p j pks pks' e h = rw (e, h) refl

  pub store_pks-from_others :
      (local_i : ℕ) (done : List (Option PaillierPublicKey)) (p : ℕ) (signers : List ℕ)
      → length done ≡ p
      → store_pks local_i
          (from_others pk_msg local_i p signers)
          (done ++ replicate (length signers) none)
        ≡ some (done ++ known_pks local_i p signers)
  unfolding store_pks
  store_pks-from_others local_i done p [] e = refl
  store_pks-from_others local_i done p (j ∷ signers) e = elim (Bool-cases (p == local_i)) [
    | inl h ↦
        ap (λ msgs. store_pks local_i msgs (done ++ (none ∷ nones)))
          (from_others_skip pk_msg local_i p j signers h)
        ∙ ap (store_pks local_i later) (sym (append_assoc done (none ∷ []) nones))
        ∙ store_pks-from_others local_i (done ++ (none ∷ [])) (suc p) signers (next none)
        ∙ rw h (ap some (append_assoc done (none ∷ []) _))
    | inr h ↦
        ap (λ msgs. store_pks local_i msgs (done ++ (none ∷ nones)))
          (from_others_take pk_msg local_i p j signers h)
        ∙ store_pks_skip local_i later p j _ (done ++ (some (rebuilt (pk j)) ∷ nones)) h
            (rw (sym e) (set_elem?-append done nones _ none))
        ∙ ap (store_pks local_i later) (sym (append_assoc done (some (rebuilt (pk j)) ∷ []) nones))
        ∙ store_pks-from_others local_i (done ++ (some (rebuilt (pk j)) ∷ [])) (suc p) signers
            (next (some (rebuilt (pk j))))
        ∙ rw h (ap some (append_assoc done (some (rebuilt (pk j)) ∷ []) _))
  ]
    where
      nones : List (Option PaillierPublicKey)
      nones = replicate (length signers) none

      later : List (ℕ × PaillierPkMsg)
      later = from_others pk_msg local_i (suc p) signers

      next : (x : Option PaillierPublicKey) → length (done ++ (x ∷ [])) ≡ suc p
      next x = omega (arith, length-append done (x ∷ []), e)

  -- Looking the keys up from index `a` on.
  abbrev pub Known : List (Option PaillierPublicKey) → ℕ → ℕ → ℕ → List ℕ → Type 0
  Known pks local_i a p [] = Unit
  Known pks local_i a p (j ∷ signers) =
      (get_elem? pks a ≡ some (if p == local_i then none else some (rebuilt (pk j))))
      × Known pks local_i (suc a) (suc p) signers

  Known-cons :
      (x : Option PaillierPublicKey) (pks : List (Option PaillierPublicKey)) (local_i a p : ℕ)
      (signers : List ℕ)
      → Known pks local_i a p signers
      → Known (x ∷ pks) local_i (suc a) p signers
  Known-cons x pks local_i a p [] h = tt
  Known-cons x pks local_i a p (j ∷ signers) (h, hs) =
      (h, Known-cons x pks local_i (suc a) (suc p) signers hs)

  pub known_pks-Known :
      (local_i p : ℕ) (signers : List ℕ) → Known (known_pks local_i p signers) local_i 0 p signers
  known_pks-Known local_i p [] = tt
  known_pks-Known local_i p (j ∷ signers) =
      (refl, Known-cons _ _ local_i 0 (suc p) signers (known_pks-Known local_i (suc p) signers))
