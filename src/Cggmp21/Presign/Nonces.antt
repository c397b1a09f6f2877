-- ===== src/Cggmp21/Presign/Nonces.antt =====
-- The encrypted nonces of presigning: what they open to, and what they add up to.
use govis.Prelude.{
  ℕ, suc, ◌+◌, ◌*◌, ◌%◌, ◌^◌, ◌≤◌, ltb, ◌==◌, some, some_inj, List, [], ◌∷◌, codes, Bool-cases, inl,
  inr, ◌≡◌, refl, sym, ap, ◌∙◌, arith, true, false,
}
use govis.Prelude.Int.{pos, nat_abs}
use govis.Big.{Big}
use govis.Curve.{Curve, be_value}
use govis.Curve.Laws
use govis.Vss.{scalar_to_bigint}
use govis.Paillier.{PaillierKeypair, encrypt_with_rho, decrypt}
use govis.Paillier.Plaintext.{IsKeypair, IsRandomness, Opens, encrypt_with_rho-Opens}
use govis.Zk.Range.Complete.{IsPublicKey, cipher, honest_proof, encrypt-cipher, prove_range-honest}
use govis.Cggmp21.OnlineSign.{position}
use govis.Cggmp21.OnlineSign as Online
use govis.Cggmp21.OnlineSign.Delivered.{inbox, inbox_skip, add_shares-inbox_take}
use govis.Big.Draws.{drawn_below}
use govis.Cggmp21.Presign.{
  EncryptedKMsg, Draws, encrypt_k, add_plaintext, add_plaintexts, secp256k1_order,
}
use govis.Cggmp21.Presign.Peers.{from_others, from_others_skip, from_others_take, AllAt, rebuilt}
use native.Mathlib.Nat.{pow-zero, pow-suc, mod-le}
use mathlib.Core.Path.{subst}

pub square : (n : ℕ) → n ^ 2 ≡ n * n
square n = rw (pow-suc n 1, pow-suc n 0, pow-zero n) (omega arith)

module _ (c : Curve) (big : Big) (sha256 : List ℕ → List ℕ) where
  open c use {Scalar, Point, add, invert, from_nat, to_be_bytes, generator, padd, scale, scale-add}

  abbrev pub value : Scalar → ℕ
  value s = be_value (to_be_bytes s)

  -- What a signer draws for the peer at position `p` with the key pair `kp`.
  pub record DrawnFor (d : Draws c) (kp : PaillierKeypair) (p : ℕ) : Type 0 where
    pub rho_n : ℕ
    pub alpha_n : ℕ
    pub gamma_n : ℕ
    pub rho_eq : d.rho p ≡ pos rho_n
    pub alpha_eq : d.alpha p ≡ pos alpha_n
    pub gamma_eq : d.gamma p ≡ pos gamma_n
    pub unit : IsRandomness kp.pk kp.sk rho_n

  rebuilt-IsKeypair :
      (kp : PaillierKeypair) → IsKeypair kp.pk kp.sk → IsKeypair (rebuilt kp.pk) kp.sk
  rebuilt-IsKeypair kp key = record {
    n_large = key.n_large;
    n_sq_eq = square kp.pk.n;
    g_eq = key.g_eq;
    mu_inverse = key.mu_inverse;
  }

  -- The encrypted nonce is made, and opens to the nonce.
  pub encrypt_k-Opens :
      (d : Draws c) (kp : PaillierKeypair) (p : ℕ)
      → IsKeypair kp.pk kp.sk
      → DrawnFor d kp p
      → (msg : EncryptedKMsg) × (ct : ℕ) × (encrypt_k c big sha256 d (rebuilt kp.pk) p ≡ some msg)
        × (msg.c_k_share ≡ some (pos ct))
        × Opens kp.pk kp.sk ct (value d.k_scalar)
  unfolding encrypt_k drawn_below scalar_to_bigint
  encrypt_k-Opens d kp p key drawn = (
    record {
      c_k_share = some (pos ct);
      range_proof = some (
          honest_proof big sha256 (rebuilt kp.pk) public m drawn.rho_n 256 drawn.alpha_n
            drawn.gamma_n sid);
    },
    ct,
    rw
        (
          above_one,
          drawn.rho_eq,
          drawn.alpha_eq,
          drawn.gamma_eq,
          made,
          prove_range-honest big sha256 (rebuilt kp.pk) public m drawn.rho_n 256 drawn.alpha_n
              drawn.gamma_n sid,
        )
        refl,
    refl,
    subst (λ t. Opens kp.pk kp.sk t m) (ap nat_abs (some_inj (sym opened.1 ∙ made))) opened.2,
  )
    where
      m : ℕ
      m = value d.k_scalar

      sid : List ℕ
      sid = codes "govis-cggmp21-presign"

      public : IsPublicKey (rebuilt kp.pk)
      public = record { n_large = key.n_large; n_sq_eq = square kp.pk.n; g_eq = key.g_eq }

      ct : ℕ
      ct =
          cipher big sha256 (rebuilt kp.pk) public m drawn.rho_n 256 drawn.alpha_n drawn.gamma_n sid

      above_one : ltb 1 kp.pk.n ≡ true
      above_one = ground (arith, key.n_large)

      made : encrypt_with_rho big (rebuilt kp.pk) (pos m) (pos drawn.rho_n) ≡ some (pos ct)
      made =
          encrypt-cipher big sha256 (rebuilt kp.pk) public m drawn.rho_n 256 drawn.alpha_n
            drawn.gamma_n sid

      opened :
          (ct' : ℕ) × (encrypt_with_rho big (rebuilt kp.pk) (pos m) (pos drawn.rho_n)
            ≡ some (pos ct'))
          × Opens kp.pk kp.sk ct' m
      opened =
          encrypt_with_rho-Opens big (rebuilt kp.pk) kp.sk (rebuilt-IsKeypair kp key) m drawn.rho_n
            drawn.unit

  -- Numbers up to `bound` are read as scalars modulo the order of the curve.
  abbrev pub ReadsModuloOrder : ℕ → Type 0
  ReadsModuloOrder bound = (a : ℕ) → a ≤ bound → from_nat (a % secp256k1_order) ≡ from_nat a

  -- The signers' nonces.
  module _ (k : ℕ → Scalar) where
    abbrev pub value_sum : List ℕ → ℕ
    value_sum [] = 0
    value_sum (j ∷ signers) = value (k j) + value_sum signers

    -- A message that decrypts to the nonce of its sender.
    abbrev pub Decrypts : PaillierKeypair → (ℕ → ℕ → EncryptedKMsg) → ℕ → ℕ → Type 0
    Decrypts kp msg p j =
        (ct : ℕ) × ((msg p j).c_k_share ≡ some (pos ct))
        × (decrypt big kp.sk kp.pk (pos ct) ≡ some (pos (value (k j))))

    add_plaintexts_step :
        (kp : PaillierKeypair) (msg : ℕ → ℕ → EncryptedKMsg) (local_i p j t : ℕ)
        (msgs : List (ℕ × EncryptedKMsg))
        → (p == local_i) ≡ false
        → Decrypts kp msg p j
        → add_plaintexts c big sha256 kp local_i (pos t) ((p, msg p j) ∷ msgs)
          ≡ add_plaintexts c big sha256 kp local_i (pos ((t + value (k j)) % secp256k1_order)) msgs
    unfolding add_plaintexts add_plaintext
    add_plaintexts_step kp msg local_i p j t msgs h (ct, e, d) = rw (h, e, d) refl

    pub add_plaintexts-from_others :
        (kp : PaillierKeypair) (msg : ℕ → ℕ → EncryptedKMsg) (local_i p t bound : ℕ)
        (signers : List ℕ)
        → ReadsModuloOrder bound
        → t + value_sum signers ≤ bound
        → AllAt (Decrypts kp msg) p signers
        → (total : ℕ) × (add_plaintexts c big sha256 kp local_i
              (pos t)
              (from_others msg local_i p signers)
            ≡ some (pos total))
          × (from_nat total
              ≡ Online.add_shares c local_i (from_nat t) (inbox c k local_i p signers))
    unfolding add_plaintexts Online.add_shares
    add_plaintexts-from_others kp msg local_i p t bound [] reads room all = (t, refl, refl)
    add_plaintexts-from_others kp msg local_i p t bound (j ∷ signers) reads room (here, later) =
        elim (Bool-cases (p == local_i)) [
          | inl h ↦
              let (total, e, sum) =
                add_plaintexts-from_others kp msg local_i (suc p) t bound signers reads
                  (omega arith) later in
              (
                total,
                ap (add_plaintexts c big sha256 kp local_i (pos t))
                      (from_others_skip msg local_i p j signers h)
                    ∙ e,
                sum
                    ∙ ap (Online.add_shares c local_i (from_nat t))
                        (sym (inbox_skip c k local_i p j signers h)),
              )
          | inr h ↦
              let next : ℕ = (t + value (k j)) % secp256k1_order in
              let (total, e, sum) =
                add_plaintexts-from_others kp msg local_i (suc p) next bound signers reads
                  (omega (arith, mod-le (t + value (k j)) secp256k1_order)) later in
              (
                total,
                ap (add_plaintexts c big sha256 kp local_i (pos t))
                      (from_others_take msg local_i p j signers h)
                    ∙ add_plaintexts_step kp msg local_i p j t _ h here
                    ∙ e,
                sum
                    ∙ ap (λ s. Online.add_shares c local_i s (inbox c k local_i (suc p) signers))
                        (reads (t + value (k j)) (omega arith)
                          ∙ Laws.from_nat-add c t (value (k j))
                          ∙ ap (add (from_nat t)) (Laws.from_nat-be_value c (k j)))
                    ∙ sym (add_shares-inbox_take c k local_i p j signers (from_nat t) h),
              )
        ]
