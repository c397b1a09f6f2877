-- ===== src/Lindell/Sign/Honest.antt =====
-- Two honest signers complete a signature.
use govis.Prelude.{
  ℕ, ◌+◌, ◌*◌, ◌^◌, ◌≤◌, ◌<◌, ◌≡◌, refl, ap, ◌∙◌, arith, ==_refl, some, List, [], ◌∷◌, ok, All,
  length,
}
use govis.Prelude.Int.{pos}
use govis.Big.{Big}
use govis.Curve.{Curve, be_value}
use govis.Vss.{lagrange_coeff, point_x_coord}
use govis.Vss.Polynomial.{eval}
use govis.Vss.Lagrange.{coord, Distinct}
use govis.Ecdsa.{recovery_id}
use govis.Paillier.{PaillierPublicKey, PaillierPrivateKey}
use govis.Paillier.Plaintext.{IsKeypair, IsRandomness}
use govis.Lindell.Sign.{P1Data, p1_data, P2Data, p2_data, P1State, find_from}
use govis.Lindell.Sign.Parties.{p1_round1, p2_round2, p1_round3}
use govis.Lindell.Sign.Agreement.{number, state_of, data_of, p1_round1-Opens, p2_respond-Opens}
use govis.Cggmp21.OnlineSign.Honest.{sum-share_of}
use govis.Lindell.Sign.Answers.{p2_round2-p2_respond, p1_complete-Opens, shares_add}

module _ (c : Curve) (big : Big) (sha256 : List ℕ → List ℕ) where
  open c use {
    Scalar, Point, zero_s, one_s, add, mul, invert, from_nat, to_be_bytes, generator, scale,
    mul_assoc, mul_comm, point_bytes,
  }

  -- Two honest signers. The first one has the key pair `pk`, `sk` and the nonce `k`, the shares are the
  -- values of `f`, of at most two coefficients, at the coordinates of two distinct signers with the
  -- Lagrange coefficients `w`, and the nonce point has an x-coordinate `r` and a recovery id. The numbers
  -- drawn are in their ranges, the hash and the scalars have 32 bytes, and n exceeds the product of any
  -- two scalars. Then the first signer's message, the answer of the second one to it and the completion
  -- from the answer do not panic and report no violation, and the signature is (r, k⁻¹ (z + r x)) for
  -- the secret x, the value of `f` at zero.
  pub p1_round3-p2_round2 :
      {R S : Type 0} (pk : PaillierPublicKey) (sk : PaillierPrivateKey)
      (first second rec_id rho ra rg cg rho_s2 mt mrho : ℕ) (w : ℕ → Scalar) (f : List Scalar)
      (k k_inv alpha r msg : Scalar)
      → IsKeypair pk sk
      → ((bs : List ℕ) → be_value (sha256 bs) < 2 ^ 256)
      → ((s : Scalar) → number c big sha256 s < 2 ^ 256)
      → ((s t : Scalar) → number c big sha256 s * number c big sha256 t < pk.n)
      → Distinct c (first ∷ second ∷ [])
      → length f ≤ 2
      → All (λ j. lagrange_coeff c j (first ∷ second ∷ []) ≡ some (w j)) (first ∷ second ∷ [])
      → invert k ≡ some k_inv
      → point_x_coord c (scale generator k) ≡ some r
      → recovery_id c (scale generator k) ≡ some rec_id
      → IsRandomness pk sk rho
      → ra < 2 ^ (256 + 256 + big.bits pk.n)
      → IsRandomness pk sk rho_s2
      → mt < 2 ^ (256 + 256)
      → (state : P1State c) × (data1 : P1Data c) × (data2 : P2Data) × (p1_round1 c big sha256
            {R = R} {S = S}
            (record {
              kp = record { pk = pk; sk = sk };
              k = k;
              rho = pos rho;
              range_alpha = pos ra;
              range_gamma = pos rg;
              consistency_alpha = alpha;
              consistency_gamma = pos cg;
            })
          ≡ ok (state, data1))
        × (p2_round2 c big sha256 {R = R} {S = S}
              (record { rho_s2 = pos rho_s2; mul_t = pos mt; mul_rho = pos mrho })
              first
              (w second)
              msg
              (eval c f (coord c second))
              ((first, p1_data data1) ∷ [])
            ≡ ok data2)
        × (p1_round3 c big sha256 {R = R} {S = S}
              (some state)
              first
              second
              (first ∷ second ∷ [])
              msg
              (eval c f (coord c first))
              ((second, p2_data data2) ∷ [])
            ≡ ok (record {
              r_bytes = to_be_bytes r;
              s_bytes = to_be_bytes (mul k_inv (add msg (mul r (eval c f zero_s))));
              rec_id = rec_id;
            }))
  unfolding p1_round3 find_from
  p1_round3-p2_round2 {R} {S} pk sk first second rec_id rho ra rg cg rho_s2 mt mrho w f k k_inv
        alpha r msg key hash number_lt fits d hf hw hk hr hrec unit1 hra unit2 hmt =
      let (c_k, range, consistency, made1, o1, v1, v2) =
        p1_round1-Opens c big sha256 pk sk key hash number_lt {R = R} {S = S} k k_inv alpha rho ra
          rg cg hk unit1 hra in
      let (c_s2, proof, made2, o2, v3) =
        p2_respond-Opens c big sha256 pk sk key hash number_lt {R = R} {S = S} c_k
          (number c big sha256 k_inv) rho_s2 mt mrho
          (data_of c pk (scale generator k) (pos c_k) range consistency) r (w second) msg
          (eval c f (coord c second)) refl hr o1 unit2 hmt in
      (
        state_of c pk sk k k_inv (pos c_k),
        data_of c pk (scale generator k) (pos c_k) range consistency,
        record { c_s2 = pos c_s2; mul_proof = proof },
        made1,
        p2_round2-p2_respond c big sha256 pk sk key _ first (w second) msg
              (eval c f (coord c second)) (scale generator k) (pos c_k) range consistency v1 v2
            ∙ made2,
        rw (==_refl second) (
            p1_complete-Opens c big sha256 pk sk key _ first (first ∷ second ∷ []) msg
              (eval c f (coord c first)) (w first) r c_s2 _ rec_id proof refl refl v3 o2
              (fits _ k_inv) hw.0 hr hrec
            ∙ ap
                (λ s.
                  ok (record { r_bytes = to_be_bytes r; s_bytes = to_be_bytes s; rec_id = rec_id }))
                (shares_add c big sha256 first second w k_inv msg r f
                  ∙ sum-share_of c (first ∷ second ∷ []) k_inv w msg r f d hw hf (omega arith))),
      )
