-- ===== src/Delivery/Connect/Table.antt =====
-- What filling the table leaves in each slot, and when every slot can be unwrapped.
use govis.Prelude.{
  ℕ, zero, suc, ◌<◌, ◌==◌, ==_iff, Option, none, some, List, [], ◌∷◌, length, get_elem?, All, map,
  Outcome, ok, Bool-cases, false, inl, inr, ◌⊎◌, ◌≡◌, refl, sym, ap, ◌∙◌, arith,
}
use govis.Prelude.Slots.{set_elem?-cases}
use govis.Delivery.Connect.{collect, fill_slots, unwrap_all}
use mathlib.Core.Path.{subst}

-- Handles that all come out well.
pub collect-ok :
    {E A : Type 0} (handle : ℕ → Outcome E A) (f : ℕ → A) (ks : List ℕ)
    → All (λ k. handle k ≡ ok (f k)) ks
    → collect handle ks ≡ ok (map f ks)
unfolding collect
collect-ok handle f [] h = refl
collect-ok handle f (k ∷ ks) (h, hs) = rw (h, collect-ok handle f ks hs) refl

-- The slot `j` holds what one of the results has brought, or none of them is for it.
abbrev pub Slot :
    {A : Type 0} → (ℕ × A → Type 0) → List (ℕ × A) → List (Option A) → List (Option A) → ℕ → Type 0
Slot {A} P results before after j =
    ((get_elem? after j ≡ get_elem? before j) × All (λ r. (j == r.0) ≡ false) results)
    ⊎ ((r : ℕ × A) × P r × (r.0 ≡ j) × (get_elem? after j ≡ some (some r.1)))

pub fill_slots-Slot :
    {A : Type 0} (P : ℕ × A → Type 0) (results : List (ℕ × A)) (peer_tx : List (Option A))
    → All (λ r. r.0 < length peer_tx) results
    → All P results
    → (filled : List (Option A)) × (fill_slots results peer_tx ≡ some filled)
      × (length filled ≡ length peer_tx)
      × ((j : ℕ) → Slot P results peer_tx filled j)
unfolding fill_slots
fill_slots-Slot P [] peer_tx h p = (peer_tx, refl, refl, λ j. inl (refl, tt))
fill_slots-Slot {A} P ((sender, tx) ∷ results) peer_tx (h, hs) (p, ps) =
    let (ys, e, same, at, others) = set_elem?-cases sender (some tx) peer_tx h in
    let (filled, e', same', slot) =
      fill_slots-Slot P results ys (subst (λ n. All (λ (r : ℕ × A). r.0 < n) results) (sym same) hs)
        ps in
    (
      filled,
      rw (e, e') refl,
      same' ∙ same,
      λ j. elim (slot j) [
        | inr found ↦ inr found
        | inl (kept, apart) ↦ elim (Bool-cases (j == sender)) [
          | inl here ↦
              let k : j ≡ sender = (==_iff j sender).0 here in
              inr ((sender, tx), p, sym k, kept ∙ ap (get_elem? ys) k ∙ at)
          | inr there ↦ inl (kept ∙ others j there, (there, apart))
        ]
      ],
    )

pub unwrap_all-full :
    {A : Type 0} (slots : List (Option A))
    → ((j : ℕ) → j < length slots → (tx : A) × (get_elem? slots j ≡ some (some tx)))
    → (peer_tx : List A) × (unwrap_all slots ≡ some peer_tx)
      × ((j : ℕ) (tx : A) → get_elem? slots j ≡ some (some tx) → get_elem? peer_tx j ≡ some tx)
unfolding unwrap_all
unwrap_all-full [] h = ([], refl, λ j tx e. cc e)
unwrap_all-full (none ∷ slots) h = absurd (cc (h 0 (omega arith)).1)
unwrap_all-full {A} (some tx ∷ slots) h =
    let (peer_tx, e, at) = unwrap_all-full slots (λ j l. h (suc j) (omega (arith, l))) in
    (tx ∷ peer_tx, rw e refl, λ j t k. head peer_tx at j t k)
  where
    head :
        (peer_tx : List A)
        → ((j : ℕ) (t : A) → get_elem? slots j ≡ some (some t) → get_elem? peer_tx j ≡ some t)
        → (j : ℕ) (t : A) → get_elem? (some tx ∷ slots) j ≡ some (some t)
        → get_elem? (tx ∷ peer_tx) j ≡ some t
    head peer_tx at zero t k = cc k
    head peer_tx at (suc j) t k = at j t k
