-- ===== src/Lindell/Sign/Verified.antt =====
-- What `run_sign` returns is a valid signature, whatever the network and the other parties do.
use govis.Prelude.{
  ℕ, if◌then◌else◌, ◌≡◌, refl, List, Outcome, ok, expect, ensure, some, none, true, false, Bool,
  Option,
}
use govis.Prelude.{◌>>=◌ as ◌and_then◌}
use govis.Net.{Returns, Returns-then_run, Returns-ok}
use govis.Big.{Big}
use govis.Curve.{Curve}
use govis.Ecdsa.{verify_signature}
use govis.Lindell.Sign.{Error, invalid_signature, Network, P1Draws, P2Draws, Round3Msg}
use govis.Lindell.Sign.Rounds.{check_signature, sign_round3_first, sign_round3_other, run_sign}

module _ (c : Curve) where
  open c use {Scalar, Point}

  -- The signature is valid.
  abbrev Accepted : Point → List ℕ → Round3Msg → Type 0
  Accepted public_key msg_digest sig =
      verify_signature c public_key msg_digest sig.r_bytes sig.s_bytes ≡ some true

module _ (c : Curve) (big : Big) (sha256 : List ℕ → List ℕ) {R S : Type 0} where
  open c use {Scalar, Point}

  check_signature_ok :
      (public_key : Point) (msg_digest : List ℕ) (sig : Round3Msg)
      → check_signature c big sha256 {R = R} {S = S} public_key msg_digest sig ≡ ok tt
      → verify_signature c public_key msg_digest sig.r_bytes sig.s_bytes ≡ some true
  unfolding check_signature
  check_signature_ok public_key msg_digest sig h =
      decide (verify_signature c public_key msg_digest sig.r_bytes sig.s_bytes) h
    where
      decide :
          (o : Option Bool)
          → ((expect {E = Error R S} o) and_then λ valid. ensure valid invalid_signature) ≡ ok tt
          → o ≡ some true
      decide (some true) e = refl
      decide (some false) e = cc
      decide none e = cc

  sign_round3_first_ok :
      (net : Network c R S) (public_key : Point) (msg_digest : List ℕ)
      (made : Outcome (Error R S) Round3Msg)
      → Returns
          (Accepted c public_key msg_digest)
          (sign_round3_first c big sha256 net public_key msg_digest made)
  unfolding sign_round3_first
  sign_round3_first_ok net public_key msg_digest made =
      search (Returns-then_run, Returns-ok, check_signature_ok) depth 12

  sign_round3_other_ok :
      (net : Network c R S) (first : ℕ) (public_key : Point) (msg_digest : List ℕ)
      → Returns
          (Accepted c public_key msg_digest)
          (sign_round3_other c big sha256 net first public_key msg_digest)
  unfolding sign_round3_other
  sign_round3_other_ok net first public_key msg_digest =
      search (Returns-then_run, Returns-ok, check_signature_ok) depth 12

  -- Whatever the network delivers and whatever is drawn: a signature that `run_sign` returns, to the
  -- first signer or to any other party, is one that `verify_signature` accepts for the public key.
  pub run_sign_ok :
      (net : Network c R S) (i n first second : ℕ) (share : Scalar) (public_key : Point)
      (msg_digest : List ℕ) (draws1 : P1Draws c) (draws2 : P2Draws) (sig : Round3Msg)
      → (run_sign c big sha256 net i n first second share public_key msg_digest draws1 draws2).1
        ≡ ok sig
      → verify_signature c public_key msg_digest sig.r_bytes sig.s_bytes ≡ some true
  unfolding run_sign
  run_sign_ok net i n first second share public_key msg_digest draws1 draws2 = returned.result
    where
      last :
          (p1_round3' : Outcome (Error R S) Round3Msg) (is_p1 : Bool)
          → Returns (Accepted c public_key msg_digest) (
              if is_p1
              then sign_round3_first c big sha256 net public_key msg_digest p1_round3'
              else sign_round3_other c big sha256 net first public_key msg_digest)
      last made true = sign_round3_first_ok net public_key msg_digest made
      last made false = sign_round3_other_ok net first public_key msg_digest

      returned :
          Returns
            (Accepted c public_key msg_digest)
            (run_sign c big sha256 net i n first second share public_key msg_digest draws1 draws2)
      returned = search (Returns-then_run, last) depth 12
