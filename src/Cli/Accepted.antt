-- ===== src/Cli/Accepted.antt =====
-- What the checks of the arguments guarantee of the configuration that a protocol runs with.
use govis.Prelude.{
  ℕ, zero, suc, ◌+◌, ◌-◌, ◌*◌, ◌/◌, ◌%◌, ◌^◌, ◌≤◌, ◌<◌, ltb, leb, ◌==◌, Option, none, some, List,
  [], ◌∷◌, length, range_from, codes, ok, ensure, ensure_ok, Yields, Yields-then, Yields-ok, Bool,
  Bool-cases, Option-cases, ==_iff, true, false, ◌&&◌, ◌||◌, not, inl, inr, ◌≡◌, refl, ap, arith,
  All,
}
use govis.Cli.{
  no_addresses, lindell_threshold, too_few_signers, threshold_exceeds_parties, signer_out_of_range,
  refresh_unsupported, Config, get_arg, is_lindell, is_cggmp21, protocol_of, default_threshold,
  all_below, threshold_of, signers_of, paillier_bits_of, configure,
}

-- `count` is the number of addresses.
pub record Checked (count : ℕ) (config : Config) : Type 0 where
  pub some_address : 0 < count
  pub n_eq : config.n ≡ count % 2 ^ 16
  pub threshold_fits : config.threshold ≤ config.n
  pub signers_in_range : All (λ s. s < config.n) config.signers
  pub enough_signers : is_cggmp21 config.protocol ≡ true → config.threshold ≤ length config.signers
  pub no_refresh : is_cggmp21 config.protocol ≡ true → config.refresh ≡ false
  pub lindell_two : is_lindell config.protocol ≡ true → config.threshold ≡ 2

all_below-All : (n : ℕ) (signers : List ℕ) → all_below n signers ≡ true → All (λ s. s < n) signers
unfolding all_below
all_below-All n [] h = tt
all_below-All n (s ∷ signers) h = elim (Bool-cases (ltb s n)) [
  | inl e ↦ (ground (arith, e), all_below-All n signers (rw e at h))
  | inr e ↦ absurd (cc (rw e at h))
]

not_both : (a b : Bool) → not (a && b) ≡ true → b ≡ true → a ≡ false
not_both true b h e = absurd (cc (rw e at h))
not_both false b h e = refl

not_first : (a b : Bool) → not (a && b) ≡ true → a ≡ true → b ≡ false
not_first true true h e = cc
not_first true false h e = refl
not_first false b h e = cc

implied : (a b : Bool) → (not a || b) ≡ true → a ≡ true → b ≡ true
implied true b h e = h
implied false b h e = cc

not_zero : (count : ℕ) → not (count == 0) ≡ true → 0 < count
not_zero zero h = absurd (cc h)
not_zero (suc count) h = omega arith

module _ (parse_u16 parse_usize : List ℕ → Option ℕ) where
  threshold_of-lindell :
      (args : List (List ℕ)) (protocol : List ℕ) (n : ℕ)
      → Yields
          (λ t. is_lindell protocol ≡ true → t ≡ 2)
          (threshold_of parse_u16 parse_usize args protocol n)
  unfolding threshold_of
  threshold_of-lindell args protocol n = elim (Option-cases (get_arg args (codes "--threshold"))) [
    | inl e ↦ rw (threshold_of, e) (Yields-ok _ (λ l. rw l refl))
    | inr (s, e) ↦ rw (threshold_of, e) (search (Yields-then, Yields-ok, two_of) depth 10)
  ]
    where
      two_of :
          (t : ℕ)
          → ensure (not (is_lindell protocol) || t == 2) lindell_threshold ≡ ok tt
          → is_lindell protocol ≡ true
          → t ≡ 2
      two_of t h l = (==_iff t 2).0 (implied (is_lindell protocol) (t == 2) (ensure_ok _ _ h) l)

  Checked-intro :
      (args : List (List ℕ)) (count threshold : ℕ) (protocol signers : List ℕ) (refresh : Bool)
      (paillier_bits : Option ℕ)
      → ensure (not (count == 0)) no_addresses ≡ ok tt
      → threshold_of parse_u16 parse_usize args protocol (count % 2 ^ 16) ≡ ok threshold
      → ensure (not (is_cggmp21 protocol && ltb (length signers) threshold)) too_few_signers ≡ ok tt
      → ensure (leb threshold (count % 2 ^ 16)) threshold_exceeds_parties ≡ ok tt
      → ensure (all_below (count % 2 ^ 16) signers) signer_out_of_range ≡ ok tt
      → ensure (not (refresh && is_cggmp21 protocol)) refresh_unsupported ≡ ok tt
      → Checked count (record {
        protocol = protocol;
        n = count % 2 ^ 16;
        threshold = threshold;
        signers = signers;
        refresh = refresh;
        paillier_bits = paillier_bits;
      })
  Checked-intro args count threshold protocol signers refresh paillier_bits h0 ht h1 h2 h3 h4 =
      record {
        some_address = not_zero count (ensure_ok _ _ h0);
        n_eq = refl;
        threshold_fits = ground (arith, ensure_ok _ _ h2);
        signers_in_range = all_below-All (count % 2 ^ 16) signers (ensure_ok _ _ h3);
        enough_signers = λ e.
            let more : ltb (length signers) threshold ≡ false =
              not_first (is_cggmp21 protocol) _ (ensure_ok _ _ h1) e in
            ground (arith, more);
        no_refresh = not_both refresh (is_cggmp21 protocol) (ensure_ok _ _ h4);
        lindell_two = (threshold_of-lindell args protocol (count % 2 ^ 16)).result threshold ht;
      }

  -- A configuration that passes the checks comes from at least one address, and has the number of
  -- addresses modulo 65536 as its number of parties, a threshold of at most that number, signers below
  -- it, for the protocol name cggmp21 at least as many signers as the threshold and no refresh, and for
  -- the protocol name lindell the threshold 2.
  pub configure_ok :
      (args : List (List ℕ)) (count : ℕ)
      → Yields (Checked count) (configure parse_u16 parse_usize args count)
  unfolding configure
  configure_ok args count = search (Yields-then, Yields-ok, Checked-intro) depth 30

  range_below : (a m n : ℕ) → a + m ≤ n → all_below n (range_from a m) ≡ true
  unfolding all_below
  range_below a zero n h = refl
  range_below a (suc m) n h =
      let below : ltb a n ≡ true = ground (arith, h) in
      rw below (range_below (suc a) m n (omega arith))

  length-range_from : (a m : ℕ) → length (range_from a m) ≡ m
  length-range_from a zero = refl
  length-range_from a (suc m) = ap suc (length-range_from (suc a) m)

  -- With no argument but the protocol's name, CGGMP21 is accepted for every number of parties that a u16
  -- holds: with the threshold 2 f + 1 for f = (n - 1) / 3, and the first parties as the signers.
  configure-default :
      (args : List (List ℕ)) (count : ℕ)
      → 0 < count
      → count < 65536
      → get_arg args (codes "--protocol") ≡ some (codes "cggmp21")
      → get_arg args (codes "--threshold") ≡ none
      → get_arg args (codes "--signers") ≡ none
      → get_arg args (codes "--paillier-bits") ≡ none
      → get_arg args (codes "--refresh") ≡ none
      → configure parse_u16 parse_usize args count
        ≡ ok (record {
          protocol = codes "cggmp21";
          n = count;
          threshold = 2 * ((count - 1) / 3) + 1;
          signers = range_from 0 (2 * ((count - 1) / 3) + 1);
          refresh = false;
          paillier_bits = none;
        })
  unfolding configure protocol_of threshold_of signers_of paillier_bits_of is_lindell is_cggmp21
      default_threshold
  configure-default args count some_party small e1 e2 e3 e4 e5 =
      rw
        (
          named, threshold_of, signers_of, paillier_bits_of, e5, nonzero, e2, e4, e3, named, whole,
          value, enough, fits, inside,
        )
        refl
    where
      t : ℕ
      t = 2 * ((count - 1) / 3) + 1

      named : protocol_of args ≡ codes "cggmp21"
      named = rw (protocol_of, e1) refl

      nonzero : (count == 0) ≡ false
      nonzero = ground arith

      whole : count % 2 ^ 16 ≡ count
      whole = omega arith

      value : (2 * ((count + 65535) % 2 ^ 16 / 3) + 1) % 2 ^ 16 ≡ t
      value = omega arith

      enough : ltb (length (range_from 0 t)) t ≡ false
      enough = ground (arith, length-range_from 0 t)

      fits : leb t count ≡ true
      fits = ground arith

      inside : all_below count (range_from 0 t) ≡ true
      inside = range_below 0 t count (omega arith)
