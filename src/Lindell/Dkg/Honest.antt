-- ===== src/Lindell/Dkg/Honest.antt =====
-- A run of the key generation in which every party follows the protocol.
use govis.Prelude.{
  ℕ, zero, suc, ◌+◌, ◌-◌, ◌<◌, none, some, List, [], ◌∷◌, map, range_from, get_elem?, ok, ◌≡◌, refl,
  sym, ap, ◌∙◌, arith, All,
}
use govis.Net.{Sent, broadcast}
use govis.Curve.{Curve}
use govis.Vss.{compute_commitment, coefficients, evaluate_polynomial}
use govis.Vss.Polynomial.{eval, add_poly, eval-add_poly}
use govis.Curve.Laws
use govis.Vss.Refresh.{sum_poly, sum_poly-secret}
use govis.Vss.Shares.{evaluate_polynomial-share}
use govis.Vss.Lagrange.{coord}
use govis.Vss.Lagrange.Interpolation.{sum_over}
use govis.Lindell.{Msg, round1, round2}
use govis.Lindell.Dkg.{Network, run_vss, run_dkg, run_refresh}
use govis.Lindell.Dkg.Rounds.{
  others, hashes_of, reveals_of, shares_of, reveal_of, poly, check_reveals-honest,
  add_checked_shares-honest, sum_over-others, outbox, send_shares-outbox,
}
use mathlib.Core.List.{append-nil}

module _ (c : Curve) (sha256 : List ℕ → List ℕ) where
  open c use {Scalar, Point, zero_s, add, generator, padd, scale, scale-add, add_assoc}

  -- What the parties draw: `s j` is the intercept of the party `j`, and `d j` are its coefficients.
  module _ (n t : ℕ) (s : ℕ → Scalar) (d : ℕ → ℕ → Scalar) where
    abbrev pub rest : ℕ → List Scalar
    rest j = map (d j) (range_from 0 (t - 1))

    -- What the party `j` sends to the party `k`.
    abbrev pub sent_share : ℕ → ℕ → Scalar
    sent_share j k = eval c (coefficients c (s j) t (d j)) (coord c k)

    -- What the party `i` sends in the three rounds.
    abbrev pub honest_log : List ℕ → ℕ → List (Sent (Msg c))
    honest_log sid i =
        broadcast (
          round1 (record {
            commitment =
                compute_commitment c sha256 sid i (map (scale generator) (poly c sha256 s rest i));
          }))
        ∷ (broadcast (round2 (reveal_of c sha256 s rest i))
            ∷ outbox c sha256 (sent_share i) i (range_from 0 n))

    All-in_range :
        (i a m : ℕ)
        → a + m < suc n
        → All
            (λ j. get_elem? ((evaluate_polynomial c (s i) t n (d i)).1) j ≡ some (sent_share i j))
            (range_from a m)
    All-in_range i a zero h = tt
    All-in_range i a (suc m) h = (
      evaluate_polynomial-share c (s i) t n (d i) a (omega arith),
      All-in_range i (suc a) m (omega arith),
    )

    run_vss-honest :
        {R S : Type 0} (net : Network c R S) (i : ℕ) (sid : List ℕ)
        → i < n
        → ((m : Sent (Msg c)) → net.on_send m ≡ none)
        → net.on_flush ≡ none
        → net.commitments_hashes ≡ ok (hashes_of c sha256 s rest sid (others i (range_from 0 n)))
        → net.reveals ≡ ok (reveals_of c sha256 s rest (others i (range_from 0 n)))
        → net.shares ≡ ok (shares_of c sha256 s rest i (others i (range_from 0 n)))
        → run_vss c sha256 net i n t sid (s i) (d i) ≡ (
          honest_log sid i,
          ok (
            sum_over c (range_from 0 n) (λ j. sent_share j i),
            scale generator (sum_over c (range_from 0 n) s),
          ),
        )
    unfolding run_vss evaluate_polynomial coefficients
    run_vss-honest net i sid hi sends flushed hashes reveals shares =
        rw
          (
            send_shares-outbox c sha256 net i ((evaluate_polynomial c (s i) t n (d i)).1)
                (sent_share i) (range_from 0 n) sends (All-in_range i 0 n (omega arith)),
            sends,
            sends,
            flushed,
            hashes,
            reveals,
            check_reveals-honest c sha256 s rest sid (others i (range_from 0 n))
                (scale generator (s i)) [],
            shares,
            evaluate_polynomial-share c (s i) t n (d i) i hi,
            add_checked_shares-honest c sha256 s rest i (others i (range_from 0 n))
                (sent_share i i),
            append-nil,
          )
          (ap (λ p. (honest_log sid i, ok p))
            (λ k. (
              sum_over-others c sha256 (λ j. sent_share j i) i 0 n (omega arith) (omega arith) k,
              (sym (scale-add generator (s i) (sum_over c (others i (range_from 0 n)) s))
                    ∙ ap (scale generator)
                        (sum_over-others c sha256 s i 0 n (omega arith) (omega arith)))
                  k,
            )))

    -- An honest run of the key generation. Each of the `n` parties `j` has the intercept `s j` and draws
    -- the coefficients `d j`; no send or flush of the party `i < n` fails, and the rounds deliver what the
    -- other parties send: the hashes of their commitments, the commitments, and the values of their
    -- polynomials at the coordinate of `i`. Then `i` broadcasts its hash and its commitments and sends
    -- every other party its share, nobody is accused, and it ends with the value at its coordinate of
    -- the sum of all polynomials as its share, and with the generator times the sum of all intercepts,
    -- the same for every party, as the public key.
    pub run_dkg-honest :
        {R S : Type 0} (net : Network c R S) (i : ℕ) (sid : List ℕ)
        → i < n
        → ((m : Sent (Msg c)) → net.on_send m ≡ none)
        → net.on_flush ≡ none
        → net.commitments_hashes ≡ ok (hashes_of c sha256 s rest sid (others i (range_from 0 n)))
        → net.reveals ≡ ok (reveals_of c sha256 s rest (others i (range_from 0 n)))
        → net.shares ≡ ok (shares_of c sha256 s rest i (others i (range_from 0 n)))
        → run_dkg c sha256 net i n t sid (s i) (d i) ≡ (
          honest_log sid i,
          ok (record {
            secret_share = sum_over c (range_from 0 n) (λ j. sent_share j i);
            public_key = scale generator (sum_over c (range_from 0 n) s);
          }),
        )
    unfolding run_dkg
    run_dkg-honest net i sid hi sends flushed hashes reveals shares =
        rw (run_vss-honest net i sid hi sends flushed hashes reveals shares, append-nil) refl

  -- The polynomial that a refresh leads to from `f`: the sum with those of all parties.
  abbrev pub refreshed : ℕ → ℕ → (ℕ → ℕ → Scalar) → List Scalar → List Scalar
  refreshed n t d f = sum_poly c f (map (coefficients c zero_s t) (map d (range_from 0 n)))

  eval-sum_poly :
      (t : ℕ) (d : ℕ → ℕ → Scalar) (f : List Scalar) (x : Scalar) (parties : List ℕ)
      → add (eval c f x) (sum_over c parties (λ j. eval c (coefficients c zero_s t (d j)) x))
        ≡ eval c (sum_poly c f (map (coefficients c zero_s t) (map d parties))) x
  unfolding sum_over sum_poly
  eval-sum_poly t d f x [] = Laws.add-zero c (eval c f x)
  eval-sum_poly t d f x (j ∷ parties) =
      sym (add_assoc (eval c f x) _ _)
      ∙ ap (λ a. add a (sum_over c parties (λ j. eval c (coefficients c zero_s t (d j)) x)))
          (sym (eval-add_poly c f (coefficients c zero_s t (d j)) x))
      ∙ eval-sum_poly t d (add_poly c f (coefficients c zero_s t (d j))) x parties

  -- An honest run of the refresh, with the messages of an honest run in which every intercept is zero.
  -- If the old share of the party `i < n` is the value at its coordinate of the polynomial `f`, the new
  -- one is the value there of `refreshed n t d f`, which does not depend on `i` and has the value of `f`
  -- at zero; the public key stays.
  pub run_refresh-honest :
      {R S : Type 0} (n t : ℕ) (d : ℕ → ℕ → Scalar) (f : List Scalar) (master_pk : Point)
      (sid : List ℕ) (net : Network c R S) (i : ℕ)
      → i < n
      → ((m : Sent (Msg c)) → net.on_send m ≡ none)
      → net.on_flush ≡ none
      → net.commitments_hashes
        ≡ ok (
            hashes_of c sha256
              (λ j. zero_s)
              (rest n t (λ j. zero_s) d)
              sid
              (others i (range_from 0 n)))
      → net.reveals
        ≡ ok (
            reveals_of c sha256
              (λ j. zero_s)
              (rest n t (λ j. zero_s) d)
              (others i (range_from 0 n)))
      → net.shares
        ≡ ok (
            shares_of c sha256
              (λ j. zero_s)
              (rest n t (λ j. zero_s) d)
              i
              (others i (range_from 0 n)))
      → (run_refresh c sha256 net i n t sid (eval c f (coord c i)) master_pk (d i) ≡ (
        honest_log n t (λ j. zero_s) d sid i,
        ok (record {
          secret_share = eval c (refreshed n t d f) (coord c i);
          public_key = master_pk;
        }),
      ))
        × (eval c (refreshed n t d f) zero_s ≡ eval c f zero_s)
  unfolding run_refresh
  run_refresh-honest n t d f master_pk sid net i hi sends flushed hashes reveals shares = (
    rw
        (
          run_vss-honest n t (λ j. zero_s) d net i sid hi sends flushed hashes reveals shares,
          append-nil,
        )
        (ap
          (λ s. (
            honest_log n t (λ j. zero_s) d sid i,
            ok (record { secret_share = s; public_key = master_pk }),
          ))
          (eval-sum_poly t d f (coord c i) (range_from 0 n))),
    sum_poly-secret c f t (map d (range_from 0 n)),
  )
