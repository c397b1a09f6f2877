-- ===== src/Lindell/Sign/Answers.antt =====
-- The second signer's answer to a message that passes its checks, and the signature that the first
-- signer completes from an answer.
use govis.Prelude.{
  ℕ, ◌*◌, ◌^◌, ◌<◌, ◌≡◌, refl, sym, ap, ap₂, ◌∙◌, arith, ==_refl, some, List, [], ◌∷◌, codes, ok,
  true,
}
use govis.Prelude.Int.{ℤ, pos}
use govis.Prelude.{◌>>=◌ as ◌and_then◌}
use govis.Big.{Big}
use govis.Curve.{Curve}
use govis.Curve.Laws
use govis.Vss.{lagrange_coeff, point_x_coord, biguint_to_scalar}
use govis.Vss.Polynomial.{eval}
use govis.Vss.Lagrange.{coord}
use govis.Vss.Lagrange.Interpolation.{sum_over}
use govis.Ecdsa.{recovery_id}
use govis.Paillier.{PaillierPublicKey, PaillierPrivateKey}
use govis.Paillier.Plaintext.{IsKeypair, Opens, decrypt-Opens}
use govis.Zk.Range.{RangeProof, verify_range}
use govis.Zk.Mul.{MulProof, verify_mul}
use govis.Zk.Consistency.{ConsistencyProof, verify_consistency}
use govis.Zk.Log.Complete.{from_magnitude}
use govis.Lindell.Sign.{p1_data, P1State, P2Draws, find_from}
use govis.Lindell.Sign.Parties.{p2_check, p2_respond, p2_round2, p1_complete}
use govis.Lindell.Sign.Agreement.{number, data_of}
use govis.Cggmp21.OnlineSign.Honest.{share_of}
use native.Mathlib.Nat.{pow-zero, pow-suc, mod-eq_of_lt}

square : (n : ℕ) → n ^ 2 ≡ n * n
square n = rw (pow-suc n 1, pow-suc n 0, pow-zero n) (omega arith)

module _ (c : Curve) (big : Big) (sha256 : List ℕ → List ℕ) where
  open c use {
    Scalar, Point, zero_s, one_s, add, mul, invert, from_nat, to_be_bytes, generator, scale,
    mul_assoc, mul_comm, point_bytes,
  }

  module _ (pk : PaillierPublicKey) (sk : PaillierPrivateKey) (key : IsKeypair pk sk) where
    -- The second signer answers a message that passes its checks.
    pub p2_round2-p2_respond :
        {R S : Type 0} (draws : P2Draws) (first : ℕ) (lambda msg share : Scalar) (point : Point)
        (c_k : ℤ) (range : RangeProof) (consistency : ConsistencyProof c)
        → verify_range big sha256 pk c_k 256 (codes "sign") range ≡ some true
        → verify_consistency c big sha256 pk c_k point (codes "sign") consistency ≡ some true
        → p2_round2 c big sha256 {R = R} {S = S} draws first lambda msg share
            ((first, p1_data (data_of c pk point c_k range consistency)) ∷ [])
          ≡ p2_respond c big sha256 draws
              (data_of c pk point c_k range consistency)
              pk
              lambda
              msg
              share
    unfolding p2_round2 p2_check find_from
    p2_round2-p2_respond {R} {S} draws first lambda msg share point c_k range consistency v1 v2 =
        rw (==_refl first) (
          ap
            (λ (q : ℕ).
              p2_check c big sha256 {R = R} {S = S} (data_of c pk point c_k range consistency)
                (record { n = pk.n; n_sq = q; g = pk.g })
              and_then λ _.
                  p2_respond c big sha256 {R = R} {S = S} draws
                    (data_of c pk point c_k range consistency)
                    (record { n = pk.n; n_sq = q; g = pk.g }) lambda msg share)
            (square pk.n ∙ sym (key.n_sq_eq))
          ∙ rw (v1, v2) refl)

    -- The first signer's completion of an answer that opens to `m`.
    pub p1_complete-Opens :
        {R S : Type 0} (state : P1State c) (i : ℕ) (signers : List ℕ) (msg share lambda r : Scalar)
        (c_s2 m rec_id : ℕ) (proof : MulProof)
        → state.pk ≡ pk
        → state.sk ≡ sk
        → verify_mul big sha256 pk state.c_k_inv (pos c_s2) 256 (codes "sign") proof ≡ some true
        → Opens pk sk c_s2 m
        → m < pk.n
        → lagrange_coeff c i signers ≡ some lambda
        → point_x_coord c (scale generator state.k) ≡ some r
        → recovery_id c (scale generator state.k) ≡ some rec_id
        → p1_complete c big sha256 {R = R} {S = S} state i signers msg share
            (record { c_s2 = pos c_s2; mul_proof = proof })
          ≡ ok (record {
            r_bytes = to_be_bytes r;
            s_bytes =
                to_be_bytes
                  (add (mul (mul lambda state.k_inv) (add msg (mul r share))) (from_nat m));
            rec_id = rec_id;
          })
    unfolding p1_complete biguint_to_scalar
    p1_complete-Opens state i signers msg share lambda r c_s2 m rec_id proof hp hs v o lt hl hr
          hrec =
        rw
          (
            hp,
            hs,
            v,
            decrypt-Opens big pk sk key c_s2 m o,
            mod-eq_of_lt lt,
            hl,
            hr,
            hrec,
            from_magnitude c big m,
          )
          refl

  -- The first part and the number decrypted add up to the sum of both signers' shares.
  pub shares_add :
      (first second : ℕ) (w : ℕ → Scalar) (k_inv msg r : Scalar) (f : List Scalar)
      → add (mul (mul (w first) k_inv) (add msg (mul r (eval c f (coord c first))))) (
          from_nat (
            number c big sha256 (mul (w second) (add msg (mul r (eval c f (coord c second)))))
            * number c big sha256 k_inv))
        ≡ sum_over c (first ∷ second ∷ []) (share_of c k_inv w msg r f)
  unfolding sum_over
  shares_add first second w k_inv msg r f =
      ap₂ add
        (ap (λ t. mul t (add msg (mul r (eval c f (coord c first))))) (mul_comm (w first) k_inv))
        (Laws.from_nat-mul c _ _
          ∙ ap₂ mul (Laws.from_nat-be_value c _) (Laws.from_nat-be_value c k_inv)
          ∙ mul_comm _ k_inv
          ∙ sym (mul_assoc k_inv (w second) _)
          ∙ sym (Laws.add-zero c _))
