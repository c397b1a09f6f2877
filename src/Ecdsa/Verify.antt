-- ===== src/Ecdsa/Verify.antt =====
-- What `verify_signature` accepts.
use govis.Prelude.{
  ℕ, ◌≡◌, ◌≢◌, ◌↔◌, sym, ap, ◌∙◌, List, Option, some, none, true, is_yes, is_yes_of, of_is_yes,
  some_inj,
}
use govis.Curve.{Curve}
use govis.Curve.Laws
use govis.Vss.{point_x_coord}
use govis.Ecdsa.{verify_signature}
use mathlib.Core.Option

module _ (c : Curve) where
  open c use {
    Scalar, Point, scalar_eq, zero_s, add, mul, invert, from_be_bytes_mod_order, to_be_bytes,
    generator, padd, scale, identity, mul_assoc, mul_comm, mul-add, mul-invert, invert_some,
    invert-zero, scale-add, scale-mul, scale-zero, from-to_be_bytes, identity-padd, one-mul,
  }

  accepts_iff :
      (r : Scalar) (o : Option Scalar)
      → (Option.map (λ r'. is_yes (scalar_eq r r')) o ≡ some true) ↔ (o ≡ some r)
  accepts_iff r none = (λ h. cc, λ h. cc)
  accepts_iff r (some r') = (
    λ h. ap some (sym (of_is_yes (scalar_eq r r') (some_inj h))),
    λ h. ap some (is_yes_of (scalar_eq r r') (sym (some_inj h))),
  )

  -- The point that the code computes for the key `x`.
  combined :
      (x z r s' : Scalar)
      → padd (scale generator (mul z s')) (scale (scale generator x) (mul r s'))
        ≡ scale generator (mul (add z (mul r x)) s')
  combined x z r s' =
      ap (padd (scale generator (mul z s'))) (sym (scale-mul generator x (mul r s')))
      ∙ sym (scale-add generator _ _)
      ∙ ap (scale generator) (
          ap (add (mul z s')) (
            Laws.mul_left_comm c x r s'
            ∙ ap (mul r) (mul_comm x s')
            ∙ ap (mul r) (mul_comm s' x)
            ∙ sym (mul_assoc r x s'))
          ∙ sym (Laws.add-mul c z (mul r x) s'))

  -- For a key with the secret `x` and an `s` with the inverse `s'`, `verify_signature` accepts exactly
  -- when `r` is the x-coordinate of the generator times (z + r x) s', where `z` is the digest.
  pub verify_signature_iff :
      (x r s s' : Scalar) (msg_digest : List ℕ)
      → invert s ≡ some s'
      → (verify_signature c (scale generator x) msg_digest (to_be_bytes r) (to_be_bytes s)
          ≡ some true)
        ↔ (point_x_coord c
              (scale generator (mul (add (from_be_bytes_mod_order msg_digest) (mul r x)) s'))
            ≡ some r)
  unfolding verify_signature
  verify_signature_iff x r s s' msg_digest e =
      rw
        (
          from-to_be_bytes r,
          from-to_be_bytes s,
          e,
          combined x (from_be_bytes_mod_order msg_digest) r s',
        )
        (accepts_iff r _)

  -- A signature made with a nonce `k` is accepted: if `r` is the x-coordinate of the generator times
  -- `k`, k s = z + r x and `s` is not zero, then `verify_signature` answers true for the key of `x`.
  pub verify_signature_complete :
      (x k r s : Scalar) (msg_digest : List ℕ)
      → point_x_coord c (scale generator k) ≡ some r
      → mul k s ≡ add (from_be_bytes_mod_order msg_digest) (mul r x)
      → s ≢ zero_s
      → verify_signature c (scale generator x) msg_digest (to_be_bytes r) (to_be_bytes s)
        ≡ some true
  verify_signature_complete x k r s msg_digest hr hs nz =
      let (s', e) = invert_some s nz in
      (verify_signature_iff x r s s' msg_digest e).1 (
        ap (λ t. point_x_coord c (scale generator t))
          (ap (λ t. mul t s') (sym hs)
            ∙ mul_assoc k s s'
            ∙ ap (mul k) (mul-invert s s' e)
            ∙ Laws.mul-one c k)
        ∙ hr)

  -- An `s` of zero is not refused: then the key and the digest play no part, and the answer is whether
  -- `r` is what `point_x_coord` makes of the identity.
  pub verify_signature-zero_s :
      (public_key : Point) (r : Scalar) (msg_digest : List ℕ)
      → (verify_signature c public_key msg_digest (to_be_bytes r) (to_be_bytes zero_s) ≡ some true)
        ↔ (point_x_coord c identity ≡ some r)
  unfolding verify_signature
  verify_signature-zero_s public_key r msg_digest =
      rw
        (
          from-to_be_bytes r,
          from-to_be_bytes zero_s,
          invert-zero,
          Laws.mul-zero c,
          Laws.mul-zero c,
          scale-zero generator,
          scale-zero public_key,
          identity-padd identity,
        )
        (accepts_iff r _)
