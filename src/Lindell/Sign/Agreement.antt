-- ===== src/Lindell/Sign/Agreement.antt =====
-- Two honest signers: what the second one answers to the first one's message, and the signature that the
-- first one completes from the answer.
use govis.Prelude.{
  ℕ, ◌+◌, ◌*◌, ◌%◌, ◌^◌, ◌<◌, ◌≡◌, refl, sym, ap, ap₂, ◌∙◌, arith, some, some_inj, List, codes, ok,
  true, Option,
}
use govis.Prelude.Int.{ℤ, pos, nat_abs, rem?, ◌*ℤ◌}
use govis.Prelude.Modular.{mod-mul-mod, mul-mod-mod}
use govis.Paillier.Arithmetic.{rem?-pos}
use govis.Zk.Range.Complete.{n_sq_pos}
use govis.Zk.Log.Complete.{encrypt-cipher_of}
use native.Mathlib.Nat.{pow-zero}
use govis.Big.{Big}
use govis.Curve.{Curve, be_value}
use govis.Curve.Laws
use govis.Vss.{point_x_coord, scalar_to_bigint}
use govis.Paillier.{PaillierPublicKey, PaillierPrivateKey, add, scalar_mul}
use govis.Paillier.Plaintext.{
  IsKeypair, IsRandomness, Opens, encrypt_with_rho-Opens, add-Opens, scalar_mul-Opens,
}
use govis.Zk.Range.{RangeProof, prove_range, verify_range}
use govis.Zk.Range.Complete.{IsPublicKey, drawn_below-key, prove_range-accepted}
use govis.Zk.Mul.{MulProof, prove_mul, verify_mul}
use govis.Zk.Mul.Complete.{prove_mul-accepted}
use govis.Zk.Consistency.{ConsistencyProof, prove_consistency, verify_consistency}
use govis.Zk.Consistency.Complete.{prove_consistency-accepted}
use govis.Lindell.Sign.{P1Data, P1State}
use govis.Lindell.Sign.Parties.{p1_round1, p2_respond}
use mathlib.Core.Path.{subst}

pub public_of_keypair :
    (pk : PaillierPublicKey) (sk : PaillierPrivateKey) → IsKeypair pk sk → IsPublicKey pk
public_of_keypair pk sk key = record {
  n_large = key.n_large;
  n_sq_eq = key.n_sq_eq;
  g_eq = key.g_eq;
}

pos_inj : {a b : ℕ} → pos a ≡ pos b → a ≡ b
pos_inj p = ap nat_abs p

zero_power : (g x d : ℕ) → g ^ 0 % d * (x % d) % d ≡ x % d
zero_power g x d =
    mod-mul-mod (g ^ 0) (x % d) d
    ∙ mul-mod-mod (g ^ 0) x d
    ∙ ap (λ t. t % d) (rw (pow-zero g) (omega arith))

-- Two outcomes of one library call.
same_number : {o : Option ℤ} {a b : ℕ} → o ≡ some (pos a) → o ≡ some (pos b) → a ≡ b
same_number p q = pos_inj (some_inj (sym p ∙ q))

-- What the first signer keeps, and what it sends.
module _ (c : Curve) where
  open c use {Scalar, Point, generator, scale, point_bytes}

  abbrev pub state_of : PaillierPublicKey → PaillierPrivateKey → Scalar → Scalar → ℤ → P1State c
  state_of pk sk k k_inv c_k = record {
    sk = sk;
    pk = pk;
    k = k;
    k_inv = k_inv;
    r_point_bytes = point_bytes true (scale generator k);
    c_k_inv = c_k;
  }

  abbrev pub data_of : PaillierPublicKey → Point → ℤ → RangeProof → ConsistencyProof c → P1Data c
  data_of pk point c_k range consistency = record {
    point = point;
    c_k_inv = c_k;
    pk_n = pk.n;
    pk_g = pk.g;
    range_proof = range;
    consistency_proof = consistency;
  }

module _ (c : Curve) (big : Big) (sha256 : List ℕ → List ℕ) where
  open c use {
    Scalar, Point, zero_s, one_s, mul, invert, from_nat, to_be_bytes, generator, scale, scale-mul,
    scale-one, mul-invert,
  }

  -- The number of a scalar.
  abbrev pub number : Scalar → ℕ
  number s = be_value (to_be_bytes s)

  module _ (pk : PaillierPublicKey) (sk : PaillierPrivateKey) (key : IsKeypair pk sk)
      (hash : (bs : List ℕ) → be_value (sha256 bs) < 2 ^ 256)
      (number_lt : (s : Scalar) → number s < 2 ^ 256) where
    -- The first signer's message opens to its inverse nonce, and passes the checks.
    pub p1_round1-Opens :
        {R S : Type 0} (k k_inv alpha : Scalar) (rho ra rg cg : ℕ)
        → invert k ≡ some k_inv
        → IsRandomness pk sk rho
        → ra < 2 ^ (256 + 256 + big.bits pk.n)
        → (c_k : ℕ) × (range : RangeProof) × (consistency : ConsistencyProof c) × (p1_round1 c big
              sha256 {R = R} {S = S}
              (record {
                kp = record { pk = pk; sk = sk };
                k = k;
                rho = pos rho;
                range_alpha = pos ra;
                range_gamma = pos rg;
                consistency_alpha = alpha;
                consistency_gamma = pos cg;
              })
            ≡ ok (
              state_of c pk sk k k_inv (pos c_k),
              data_of c pk (scale generator k) (pos c_k) range consistency,
            ))
          × Opens pk sk c_k (number k_inv)
          × (verify_range big sha256 pk (pos c_k) 256 (codes "sign") range ≡ some true)
          × (verify_consistency c big sha256 pk
                (pos c_k)
                (scale generator k)
                (codes "sign")
                consistency
              ≡ some true)
    unfolding p1_round1 scalar_to_bigint
    p1_round1-Opens k k_inv alpha rho ra rg cg hk unit ha =
        let (c0, e0, o0) = encrypt_with_rho-Opens big pk sk key (number k_inv) rho unit in
        let (c1, range, e1, p1, v1) =
          prove_range-accepted big sha256 pk (number k_inv) rho 256 ra rg (codes "sign")
            (public_of_keypair pk sk key) hash (number_lt k_inv) ha in
        let (c2, consistency, e2, p2, v2) =
          prove_consistency-accepted c big sha256 pk (public_of_keypair pk sk key) (number k_inv)
            rho cg (scale generator k) (codes "sign") alpha binds in
        let same1 : c1 ≡ pos c0 = some_inj (sym e1 ∙ e0) in
        let same2 : c2 ≡ pos c0 = some_inj (sym e2 ∙ e0) in
        let p1' =
          subst
            (λ x.
              prove_range big sha256 pk x (pos (number k_inv)) (pos rho) 256 (codes "sign") (pos ra)
                (pos rg)
              ≡ some range)
            same1 p1 in
        let p2' =
          subst
            (λ x.
              prove_consistency c big sha256 pk (pos (number k_inv)) (pos rho) x (scale generator k)
                (codes "sign") alpha (pos cg)
              ≡ some consistency)
            same2 p2 in
        (
          c0,
          range,
          consistency,
          rw (hk, e0, p1', p2') refl,
          o0,
          subst (λ x. verify_range big sha256 pk x 256 (codes "sign") range ≡ some true) same1 v1,
          subst
              (λ x.
                verify_consistency c big sha256 pk x (scale generator k) (codes "sign") consistency
                ≡ some true)
              same2 v2,
        )
      where
        binds : scale (scale generator k) (from_nat (number k_inv)) ≡ generator
        binds =
            ap (scale (scale generator k)) (Laws.from_nat-be_value c k_inv)
            ∙ sym (scale-mul generator k k_inv)
            ∙ ap (scale generator) (mul-invert k k_inv hk)
            ∙ scale-one generator

    -- The second signer's answer opens to the product of its number with what the first message opens to.
    pub p2_respond-Opens :
        {R S : Type 0} (c_k m rho_s2 mt mrho : ℕ) (data1 : P1Data c) (r lambda msg share : Scalar)
        → data1.c_k_inv ≡ pos c_k
        → point_x_coord c data1.point ≡ some r
        → Opens pk sk c_k m
        → IsRandomness pk sk rho_s2
        → mt < 2 ^ (256 + 256)
        → (c_s2 : ℕ) × (proof : MulProof) × (p2_respond c big sha256 {R = R} {S = S}
              (record { rho_s2 = pos rho_s2; mul_t = pos mt; mul_rho = pos mrho })
              data1
              pk
              lambda
              msg
              share
            ≡ ok (record { c_s2 = pos c_s2; mul_proof = proof }))
          × Opens pk sk c_s2 (number (mul lambda (c.add msg (mul r share))) * m)
          × (verify_mul big sha256 pk (pos c_k) (pos c_s2) 256 (codes "sign") proof ≡ some true)
    unfolding p2_respond scalar_to_bigint scalar_mul add
    p2_respond-Opens c_k m rho_s2 mt mrho data1 r lambda msg share hc hr o unit ht =
        let ms : ℕ = number (mul lambda (c.add msg (mul r share))) in
        let (d, ed, od) = scalar_mul-Opens big pk sk key c_k m ms o in
        let (z, ez, oz) = encrypt_with_rho-Opens big pk sk key 0 rho_s2 unit in
        let (s, es, os) = add-Opens big pk sk key d z (ms * m) 0 od oz in
        let power : big.modpow (pos c_k) (pos ms) (pos (pk.n * pk.n)) ≡ some (pos d) =
          ap (λ q. big.modpow (pos c_k) (pos ms) (pos q)) (sym (key.n_sq_eq))
          ∙ scalar_mul_modpow c_k ms d ed in
        let product : rem? (pos d *ℤ pos z) (pk.n * pk.n) ≡ some (pos s) =
          ap (rem? (pos d *ℤ pos z)) (sym (key.n_sq_eq)) ∙ add_rem d z s es in
        let (proof, made, valid) =
          prove_mul-accepted big sha256 pk c_k ms rho_s2 256 mt mrho (codes "sign") public hash
            (number_lt _) ht in
        let cipher : s ≡ c_k ^ ms % pk.n_sq * (rho_s2 ^ pk.n % pk.n_sq) % pk.n_sq =
          same_number (add_rem d z s es) (rem?-pos (d * z) pk.n_sq (n_sq_pos pk public))
          ∙ ap₂ (λ a b. a * b % pk.n_sq)
              (same_number (scalar_mul_modpow c_k ms d ed)
                (big.modpow-pos c_k ms pk.n_sq (n_sq_pos pk public)))
              (same_number ez (encrypt-cipher_of big pk public 0 rho_s2)
                ∙ zero_power pk.g (rho_s2 ^ pk.n) pk.n_sq) in
        let made' : prove_mul big sha256 pk (pos c_k) (pos s) (pos ms) (pos rho_s2) (codes "sign")
              (pos mt) (pos mrho)
            ≡ some proof =
          ap
            (λ t.
              prove_mul big sha256 pk (pos c_k) (pos t) (pos ms) (pos rho_s2) (codes "sign")
                (pos mt) (pos mrho))
            cipher
          ∙ made in
        (
          s,
          proof,
          rw (hr, hc, power, drawn_below-key pk public (pos rho_s2), ez, product, made') refl,
          os_of s (ms * m) os,
          ap (λ t. verify_mul big sha256 pk (pos c_k) (pos t) 256 (codes "sign") proof) cipher
              ∙ valid,
        )
      where
        public : IsPublicKey pk
        public = public_of_keypair pk sk key

        scalar_mul_modpow :
            (a k d : ℕ)
            → scalar_mul big pk (pos a) (pos k) ≡ some (pos d)
            → big.modpow (pos a) (pos k) (pos pk.n_sq) ≡ some (pos d)
        scalar_mul_modpow a k d e = e

        add_rem :
            (a b s : ℕ)
            → add big pk (pos a) (pos b) ≡ some (pos s)
            → rem? (pos a *ℤ pos b) pk.n_sq ≡ some (pos s)
        add_rem a b s e = e

        os_of : (s k : ℕ) → Opens pk sk s (k + 0) → Opens pk sk s k
        os_of s k = subst (λ t. Opens pk sk s t) {x = k + 0} {y = k} (omega arith)
