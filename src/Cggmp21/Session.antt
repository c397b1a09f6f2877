-- ===== src/Cggmp21/Session.antt =====
-- src/cggmp21/presign.rs and src/cggmp21/sign.rs together: the offline phase, and then the online phase
-- with the presignature that it made.
use govis.Prelude.{
  ℕ, ◌+◌, ◌≤◌, ◌<◌, none, some, List, length, ok, ◌≡◌, ◌≢◌, refl, sym, ap, ◌∙◌, All, Bool,
  if◌then◌else◌,
}
use govis.Net.{Sent}
use govis.Big.{Big}
use govis.Curve.{Curve}
use govis.Vss.{lagrange_coeff, point_x_coord}
use govis.Vss.Polynomial.{eval}
use govis.Vss.Lagrange.{coord, Distinct}
use govis.Vss.Lagrange.Interpolation.{sum_over}
use govis.Paillier.Plaintext.{IsKeypair}
use govis.Cggmp21.{Presignature}
use govis.Cggmp21.OnlineSign.{Signature, OnlineSignMsg, position, run_online_sign}
use govis.Cggmp21.OnlineSign as Online
use govis.Cggmp21.OnlineSign.Delivered.{inbox}
use govis.Cggmp21.OnlineSign.Honest.{share_of, run_online_sign-honest}
use govis.Cggmp21.Presign.{PresignMsg, EncryptedKMsg, Network, Draws, run_presign}
use govis.Cggmp21.Presign.Peers.{from_others, AllAt, pk_msg}
use govis.Cggmp21.Presign.Rounds.{commit_msg, reveal_msg}
use govis.Cggmp21.Presign.Nonces.{value, value_sum, ReadsModuloOrder}
use govis.Cggmp21.Presign.Honest.{nonce, Pair, pk_of, run_presign-honest}

module _ (c : Curve) (big : Big) (sha256 : List ℕ → List ℕ) (draws : ℕ → Draws c) where
  open c use {
    Scalar, Point, zero_s, one_s, add, sub, mul, invert, from_be_bytes_mod_order, to_be_bytes,
    generator, scale, y_is_odd, mul-invert, mul_assoc, mul_comm, one-mul,
  }

  -- The presignature that the signers make together, when `r` and `k_inv` are as the code computes them.
  abbrev pub presig_of : List ℕ → Scalar → Scalar → Presignature c
  presig_of signers r k_inv = record {
    k = sum_over c signers (nonce c big sha256 draws);
    k_inv = k_inv;
    r = r;
    r_point = scale generator (sum_over c signers (nonce c big sha256 draws));
  }

  -- Two phases in which every signer follows the protocol: the conditions are those of an honest run of
  -- each phase, for one list of distinct signers, at least as many as the key polynomial `f` has
  -- coefficients. Then the run of presigning ends with a presignature, and the online phase run on it
  -- ends with the signature (r, k⁻¹ (z + r x)) for the sum `k` of the nonces and the secret `x` that `f`
  -- shares; and each signer's own presignature has that k, with k s = z + r x, so that r x is known to it.
  pub run_online_sign-run_presign :
      {R S R' S' : Type 0} (offline : Network c R S) (online : Online.Network R' S') (i q : ℕ)
      (signers : List ℕ) (msg : ℕ → ℕ → EncryptedKMsg) (r k_inv : Scalar) (f : List Scalar)
      (w : ℕ → Scalar) (msg_digest : List ℕ) (odd : Bool)
      → length signers < 65536
      → position i signers ≡ some q
      → IsKeypair (pk_of c big sha256 draws i) (draws i).kp.sk
      → AllAt (Pair c big sha256 draws i q msg) 0 signers
      → ReadsModuloOrder c big sha256 (
          value c big sha256 (draws i).k_scalar
          + value_sum c big sha256 (nonce c big sha256 draws) signers)
      → invert (sum_over c signers (nonce c big sha256 draws)) ≡ some k_inv
      → point_x_coord c (scale generator (sum_over c signers (nonce c big sha256 draws))) ≡ some r
      → ((m : Sent (PresignMsg c)) → offline.on_send m ≡ none)
      → offline.on_flush ≡ none
      → offline.round0_msgs ≡ ok (from_others (pk_msg (pk_of c big sha256 draws)) q 0 signers)
      → offline.round1_msgs ≡ ok (from_others (commit_msg c big sha256 draws) q 0 signers)
      → offline.round2_msgs ≡ ok (from_others (reveal_msg c big sha256 draws) q 0 signers)
      → offline.round3_msgs ≡ ok (from_others msg q 0 signers)
      → Distinct c signers
      → length f ≤ length signers
      → All (λ j. lagrange_coeff c j signers ≡ some (w j)) signers
      → y_is_odd (scale generator (sum_over c signers (nonce c big sha256 draws))) ≡ some odd
      → mul k_inv (add (from_be_bytes_mod_order msg_digest) (mul r (eval c f zero_s))) ≢ zero_s
      → ((m : Sent OnlineSignMsg) → online.on_send m ≡ none)
      → online.round1_msgs
        ≡ ok (inbox c (share_of c k_inv w (from_be_bytes_mod_order msg_digest) r f) q 0 signers)
      → (presig : Presignature c) × ((run_presign c big sha256 offline i signers (draws i)).1
          ≡ ok presig)
        × ((run_online_sign c online i signers
              (eval c f (coord c i))
              (scale generator (eval c f zero_s))
              msg_digest
              presig).1
            ≡ ok (record {
              r_bytes = to_be_bytes r;
              s_bytes =
                  to_be_bytes (
                    mul k_inv (add (from_be_bytes_mod_order msg_digest) (mul r (eval c f zero_s))));
              rec_id = if odd then 1 else 0;
            }))
        × (mul presig.k
              (mul k_inv (add (from_be_bytes_mod_order msg_digest) (mul r (eval c f zero_s))))
            ≡ add (from_be_bytes_mod_order msg_digest) (mul presig.r (eval c f zero_s)))
  run_online_sign-run_presign offline online i q signers msg r k_inv f w msg_digest odd small hq key
        pairs reads hinv hr sends flushes m0 m1 m2 m3 distinct enough hw hodd nz online_sends msgs =
      (
        presig_of signers r k_inv,
        ap (λ run. run.1)
            (run_presign-honest c big sha256 draws offline i q signers msg r k_inv small hq key
              pairs reads hinv hr sends flushes m0 m1 m2 m3),
        ap (λ run. run.1)
            (run_online_sign-honest c online i q signers f w msg_digest (presig_of signers r k_inv)
              odd distinct enough small hq hw (mul-invert _ k_inv hinv) refl hr hodd nz online_sends
              msgs),
        sym (mul_assoc _ k_inv signed)
            ∙ ap (λ t. mul t signed) (mul-invert _ k_inv hinv)
            ∙ one-mul signed,
      )
    where
      signed : Scalar
      signed = add (from_be_bytes_mod_order msg_digest) (mul r (eval c f zero_s))
