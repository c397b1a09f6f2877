-- ===== src/Delivery/Connect/Missing.antt =====
-- A lower party that never connects.
use govis.Prelude.{
  ℕ, zero, suc, ◌+◌, ◌-◌, ◌<◌, Option, none, some, List, [], ◌∷◌, replicate, get_elem?, All,
  All-append, Outcome, ok, panic, inl, inr, ◌≡◌, ◌≢◌, refl, sym, ◌∙◌, arith,
}
use govis.Prelude.Slots.{set_elem?-cases}
use govis.Delivery.{Channel}
use govis.Delivery.Connect.{unwrap_all, connect_tcp}
use govis.Delivery.Connect.Table.{fill_slots-Slot}
use govis.Delivery.Connect.Ranges.{All-map_range, length-replicate, get_elem?-replicate}
use govis.Delivery.Connect.Results.{results, results_lt, connect_tcp-results}
use mathlib.Core.Path.{subst}

unwrap_all-none :
    {A : Type 0} (slots : List (Option A)) (j : ℕ)
    → get_elem? slots j ≡ some none
    → unwrap_all slots ≡ none
unfolding unwrap_all
unwrap_all-none [] j h = cc
unwrap_all-none (none ∷ slots) j h = refl
unwrap_all-none (some tx ∷ slots) zero h = cc
unwrap_all-none (some tx ∷ slots) (suc j) h = rw (unwrap_all-none slots j h) refl

-- For less than 65536 parties: when the listener starts, every higher party can be dialed, and each
-- accepted connection sends an index below `count` but none that of the lower party `missing`,
-- `connect_tcp` panics.
pub connect_tcp-panic :
    {E : Type 0} (listening : Outcome E (Unit {0})) (accepted : ℕ → Outcome E (ℕ × Channel))
    (dialed : ℕ → Outcome E Channel) (self_tx : Channel) (my_index count missing : ℕ)
    (incoming : ℕ → ℕ × Channel) (dials : ℕ → Channel)
    → listening ≡ ok tt
    → ((k : ℕ) → k < my_index → accepted k ≡ ok (incoming k))
    → ((k : ℕ) → k < my_index → (incoming k).0 < count)
    → ((k : ℕ) → k < my_index → (incoming k).0 ≢ missing)
    → ((j : ℕ) → my_index < j → j < count → dialed j ≡ ok (dials j))
    → missing < my_index
    → my_index < count
    → count < 65536
    → connect_tcp listening accepted dialed self_tx my_index count ≡ panic
connect_tcp-panic listening accepted dialed self_tx my_index count missing incoming dials up arrive
      lower absent reach below small fits =
    let (own, eo, lo, at, others) =
      set_elem?-cases my_index (some self_tx) (replicate count none)
        (omega (arith, length-replicate {A = Option Channel} count none)) in
    let size = lo ∙ length-replicate count none in
    let (filled, ef, lf, slot) =
      fill_slots-Slot Other (results my_index incoming dials m) own
        (subst (λ n. All (λ (r : ℕ × Channel). r.0 < n) (results my_index incoming dials m))
          (sym size) (results_lt my_index incoming dials m count (omega arith) lower))
        all_others in
    let empty : get_elem? filled missing ≡ some none = elim (slot missing) [
      | inr (r, other, e, g) ↦ absurd (other e)
      | inl (kept, apart) ↦
          kept
          ∙ others missing (ground arith)
          ∙ get_elem?-replicate count missing none (omega arith)
    ] in
    connect_tcp-results listening accepted dialed self_tx my_index count incoming dials own up
      arrive reach small fits eo
    ∙ rw (ef, unwrap_all-none filled missing empty) refl
  where
    m : ℕ
    m = count - (my_index + 1)

    Other : ℕ × Channel → Type 0
    Other r = r.0 ≢ missing

    all_others : All Other (results my_index incoming dials m)
    all_others =
        All-append Other _ _
          (All-map_range Other incoming 0 my_index (λ k l u. absent k (omega (arith, u))))
          (All-map_range Other (λ j. (j, dials j)) (my_index + 1) m
            (λ j l u e. omega (arith, l, below, e)))
