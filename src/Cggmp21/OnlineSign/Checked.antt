-- ===== src/Cggmp21/OnlineSign/Checked.antt =====
-- What the online phase returns is a valid signature, whatever the network and the other signers do.
use govis.Prelude.{
  ℕ, List, ok, expect, ensure, length, Option, some, none, Bool, true, false, ◌≡◌, refl,
}
use govis.Net.{Returns, Returns-then_run, Returns-ok}
use govis.Curve.{Curve}
use govis.Ecdsa.{verify_signature}
use govis.Cggmp21.{Presignature}
use govis.Cggmp21.OnlineSign.{Network, Signature, Error, invalid_signature, run_online_sign}

-- The signature is valid.
abbrev Accepted : (c : Curve) → c.Point → List ℕ → Signature → Type 0
Accepted c public_key msg_digest sig =
    verify_signature c public_key msg_digest sig.r_bytes sig.s_bytes ≡ some true

-- The two numbers of a signature are of 32 bytes each.
abbrev pub Sized : Signature → Type 0
Sized sig = (length sig.r_bytes ≡ 32) × (length sig.s_bytes ≡ 32)

Sized-intro :
    (c : Curve) (r s : c.Scalar) (rec_id : ℕ)
    → Sized (record { r_bytes = c.to_be_bytes r; s_bytes = c.to_be_bytes s; rec_id = rec_id })
Sized-intro c r s rec_id = (c.length-to_be_bytes r, c.length-to_be_bytes s)

module _ (c : Curve) {R S : Type 0} where
  open c use {Scalar, Point}

  valid_of :
      (o : Option Bool) (valid : Bool)
      → expect {E = Error R S} o ≡ ok valid
      → ensure {E = Error R S} valid invalid_signature ≡ ok tt
      → o ≡ some true
  valid_of (some true) valid h k = refl
  valid_of (some false) true h k = cc
  valid_of (some false) false h k = cc
  valid_of none valid h k = cc

  Accepted-intro :
      (public_key : Point) (msg_digest r_bytes s_bytes : List ℕ) (rec_id : ℕ) (valid : Bool)
      → expect {E = Error R S} (verify_signature c public_key msg_digest r_bytes s_bytes) ≡ ok valid
      → ensure {E = Error R S} valid invalid_signature ≡ ok tt
      → Accepted c public_key msg_digest
          (record { r_bytes = r_bytes; s_bytes = s_bytes; rec_id = rec_id })
  Accepted-intro public_key msg_digest r_bytes s_bytes rec_id valid h k = valid_of _ valid h k

  -- Whatever the network delivers: a signature that `run_online_sign` returns is one that
  -- `verify_signature` accepts for the public key and the digest.
  pub run_online_sign_ok :
      (net : Network R S) (i : ℕ) (signers : List ℕ) (ec_share : Scalar) (public_key : Point)
      (msg_digest : List ℕ) (presig : Presignature c) (sig : Signature)
      → (run_online_sign c net i signers ec_share public_key msg_digest presig).1 ≡ ok sig
      → verify_signature c public_key msg_digest sig.r_bytes sig.s_bytes ≡ some true
  unfolding run_online_sign
  run_online_sign_ok net i signers ec_share public_key msg_digest presig = returned.result
    where
      returned :
          Returns
            (Accepted c public_key msg_digest)
            (run_online_sign c net i signers ec_share public_key msg_digest presig)
      returned = search (Returns-then_run, Returns-ok, Accepted-intro) depth 40

  pub run_online_sign-Sized :
      (net : Network R S) (i : ℕ) (signers : List ℕ) (ec_share : Scalar) (public_key : Point)
      (msg_digest : List ℕ) (presig : Presignature c) (sig : Signature)
      → (run_online_sign c net i signers ec_share public_key msg_digest presig).1 ≡ ok sig
      → Sized sig
  unfolding run_online_sign
  run_online_sign-Sized net i signers ec_share public_key msg_digest presig = returned.result
    where
      returned :
          Returns Sized (run_online_sign c net i signers ec_share public_key msg_digest presig)
      returned = search (Returns-then_run, Returns-ok, Sized-intro) depth 40
