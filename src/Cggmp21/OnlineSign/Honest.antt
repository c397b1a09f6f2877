-- ===== src/Cggmp21/OnlineSign/Honest.antt =====
-- A run of the online phase in which every signer follows the protocol.
use govis.Prelude.{
  ℕ, ◌%◌, ◌^◌, ◌≤◌, ◌<◌, if◌then◌else◌, none, some, some_inj, List, [], ◌∷◌, length, range_from, ok,
  ◌≡◌, ◌≢◌, sym, ap, ap₂, ◌∙◌, arith, All, All-zip, All-range, map, Bool, true, length-map,
}
use govis.Net.{Sent}
use govis.Curve.{Curve}
use govis.Curve.Laws
use govis.Vss.{lagrange_coeff, point_x_coord}
use govis.Vss.Polynomial.{eval}
use govis.Vss.Lagrange.{coord, Distinct}
use govis.Vss.Lagrange.Interpolation.{sum_over, mul-sum_over, sum_over_congr}
use govis.Vss.Lagrange.Secret.{lagrange_coeff-secret}
use govis.Ecdsa.{verify_signature}
use govis.Ecdsa.Verify.{verify_signature_complete}
use govis.Cggmp21.{Presignature}
use govis.Cggmp21.OnlineSign.{
  OnlineSignMsg, Network, position, recovery_id, add_shares, run_online_sign,
}
use mathlib.Core.List.{append-nil}
use govis.Cggmp21.OnlineSign.Delivered.{
  position_All, position_lt, inbox, outbox, send_shares-outbox, add_shares-inbox,
}

module _ (c : Curve) where
  open c use {
    Scalar, zero_s, one_s, add, mul, from_be_bytes_mod_order, to_be_bytes, y_is_odd, generator,
    scale, add_assoc, zero-add, mul_assoc, mul-add, one-mul,
  }

  -- The polynomial that the signers evaluate together: z + r f.
  abbrev sign_poly : Scalar → Scalar → List Scalar → List Scalar
  sign_poly z r [] = z ∷ []
  sign_poly z r (a ∷ f) = add z (mul r a) ∷ map (mul r) f

  eval-map_mul : (r x : Scalar) (f : List Scalar) → eval c (map (mul r) f) x ≡ mul r (eval c f x)
  unfolding eval
  eval-map_mul r x [] = sym (Laws.mul-zero c r)
  eval-map_mul r x (a ∷ f) =
      ap (λ t. add (mul r a) (mul x t)) (eval-map_mul r x f)
      ∙ ap (add (mul r a)) (Laws.mul_left_comm c x r _)
      ∙ sym (mul-add r a _)

  eval-sign_poly :
      (z r x : Scalar) (f : List Scalar) → eval c (sign_poly z r f) x ≡ add z (mul r (eval c f x))
  unfolding eval
  eval-sign_poly z r x [] = rw (Laws.mul-zero c x, Laws.mul-zero c r)
  eval-sign_poly z r x (a ∷ f) =
      ap (λ t. add (add z (mul r a)) (mul x t)) (eval-map_mul r x f)
      ∙ add_assoc z (mul r a) _
      ∙ ap (add z) (ap (add (mul r a)) (Laws.mul_left_comm c x r _) ∙ sym (mul-add r a _))

  length-sign_poly :
      (z r : Scalar) (f : List Scalar) (n : ℕ) → length f ≤ n → 0 < n → length (sign_poly z r f) ≤ n
  length-sign_poly z r [] n h pos = pos
  length-sign_poly z r (a ∷ f) n h pos = omega (arith, length-map (mul r) f)

  -- The share of the signer `j`, where `w` gives the Lagrange coefficients.
  abbrev pub share_of : Scalar → (ℕ → Scalar) → Scalar → Scalar → List Scalar → ℕ → Scalar
  share_of k_inv w z r f j = mul (mul k_inv (w j)) (add z (mul r (eval c f (coord c j))))

  -- The shares add up to k⁻¹ (z + r x), for the secret `x` that the polynomial shares.
  pub sum-share_of :
      (signers : List ℕ) (k_inv : Scalar) (w : ℕ → Scalar) (z r : Scalar) (f : List Scalar)
      → Distinct c signers
      → All (λ j. lagrange_coeff c j signers ≡ some (w j)) signers
      → length f ≤ length signers
      → 0 < length signers
      → sum_over c signers (share_of k_inv w z r f) ≡ mul k_inv (add z (mul r (eval c f zero_s)))
  sum-share_of signers k_inv w z r f d hw hf pos =
      let (w', hw', sum) =
        lagrange_coeff-secret c signers (sign_poly z r f) d
          (length-sign_poly z r f (length signers) hf pos) in
      sum_over_congr c signers _
        (λ j. mul k_inv (mul (w' j) (eval c (sign_poly z r f) (coord c j))))
        (All-zip signers
          (λ j p q.
            mul_assoc k_inv (w j) _
            ∙ ap (mul k_inv)
                (ap₂ mul (some_inj (sym p ∙ q)) (sym (eval-sign_poly z r (coord c j) f))))
          hw hw')
      ∙ mul-sum_over c signers k_inv _
      ∙ ap (mul k_inv) (sum ∙ eval-sign_poly z r zero_s f)

  -- A signer's honest run. `f` is the polynomial that the key shares lie on, so `ec_share` is the value
  -- at the signer's coordinate and the public key is the generator times the value at zero. The
  -- presignature has a nonce `k` with its inverse, its point and the point's x-coordinate. There are at
  -- least as many distinct signers as coefficients, `w` names their Lagrange coefficients, no send fails,
  -- round 1 delivers the share of every other signer, and the sum of the shares is not zero.
  -- Then the run of the signer `i`, at position `q`, sends its share to every other position, and ends
  -- with the signature (r, k⁻¹ (z + r x)), the same for every signer, after verifying it.
  pub run_online_sign-honest :
      {R S : Type 0} (net : Network R S) (i q : ℕ) (signers : List ℕ) (f : List Scalar)
      (w : ℕ → Scalar) (msg_digest : List ℕ) (presig : Presignature c) (odd : Bool)
      → Distinct c signers
      → length f ≤ length signers
      → length signers < 65536
      → position i signers ≡ some q
      → All (λ j. lagrange_coeff c j signers ≡ some (w j)) signers
      → mul presig.k presig.k_inv ≡ one_s
      → presig.r_point ≡ scale generator presig.k
      → point_x_coord c presig.r_point ≡ some presig.r
      → y_is_odd presig.r_point ≡ some odd
      → mul presig.k_inv (add (from_be_bytes_mod_order msg_digest) (mul presig.r (eval c f zero_s)))
        ≢ zero_s
      → ((m : Sent OnlineSignMsg) → net.on_send m ≡ none)
      → net.round1_msgs
        ≡ ok (
            inbox c
              (share_of presig.k_inv w (from_be_bytes_mod_order msg_digest) presig.r f)
              q
              0
              signers)
      → run_online_sign c net i signers
          (eval c f (coord c i))
          (scale generator (eval c f zero_s))
          msg_digest
          presig
        ≡ (
          outbox c
              (to_be_bytes
                (share_of presig.k_inv w (from_be_bytes_mod_order msg_digest) presig.r f i))
              q
              (range_from 0 (length signers)),
          ok (record {
            r_bytes = to_be_bytes presig.r;
            s_bytes = to_be_bytes (
                mul presig.k_inv
                  (add (from_be_bytes_mod_order msg_digest) (mul presig.r (eval c f zero_s))));
            rec_id = if odd then 1 else 0;
          }),
        )
  unfolding run_online_sign recovery_id
  run_online_sign-honest net i q signers f w msg_digest presig odd d hf small hq hw kk hR hr hodd nz
        sends msgs =
      rw
        (
          hq,
          index,
          position_All (λ j. lagrange_coeff c j signers ≡ some (w j)) i signers q hq hw,
          send_shares-outbox c net q (to_be_bytes (share i)) (range_from 0 (length signers))
              (All-range (λ p. p < 65536) 0 (length signers) (λ p l u. omega (arith, u, small)))
              sends,
          msgs,
          total,
          valid,
          hodd,
        )
        (simp append-nil)
    where
      z : Scalar
      z = from_be_bytes_mod_order msg_digest

      share : ℕ → Scalar
      share = share_of presig.k_inv w z presig.r f

      s : Scalar
      s = mul presig.k_inv (add z (mul presig.r (eval c f zero_s)))

      index : q % 2 ^ 16 ≡ q
      index = omega (arith, position_lt i signers q hq)

      total : add_shares c q (share i) (inbox c share q 0 signers) ≡ s
      total =
          ap (λ t. add_shares c q t (inbox c share q 0 signers)) (sym (zero-add (share i)))
          ∙ add_shares-inbox c share i q 0 q signers zero_s hq (omega arith)
          ∙ zero-add _
          ∙ sum-share_of signers presig.k_inv w z presig.r f d hw hf
              (omega (arith, position_lt i signers q hq))

      valid :
          verify_signature c
            (scale generator (eval c f zero_s))
            msg_digest
            (to_be_bytes presig.r)
            (to_be_bytes s)
          ≡ some true
      valid =
          verify_signature_complete c (eval c f zero_s) presig.k presig.r s msg_digest
            (ap (point_x_coord c) (sym hR) ∙ hr)
            (sym (mul_assoc presig.k presig.k_inv (add z (mul presig.r (eval c f zero_s))))
              ∙ ap (λ t. mul t (add z (mul presig.r (eval c f zero_s)))) kk
              ∙ one-mul (add z (mul presig.r (eval c f zero_s))))
            nz
