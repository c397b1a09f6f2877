-- ===== src/Tests/Signing.antt =====
-- The signing theorems on the curve of five elements.
use govis.Prelude.{ℕ, ◌≡◌, ◌↔◌, refl, List, [], ◌∷◌, some, none, ok, arith, true, false, slice?}
use govis.Net.{p2p}
use govis.Curve.Toy.{toy, n0, n1, n2, n3, n4, bytes5, n1-ne-n0}
use govis.Vss.{point_x_coord}
use govis.Vss.Polynomial.{eval}
use govis.Ecdsa.{verify_signature, recovery_id, bitcoin_der_signature}
use govis.Ecdsa.Der.{decode_signature}
use govis.Ecdsa.Encoding.{bitcoin_der_signature-decodes}
use govis.Ecdsa.Verify.{verify_signature_iff, verify_signature_complete, verify_signature-zero_s}
use govis.Ecdsa.Recovery.{recovery_id-same_x}
use govis.Cggmp21.{Presignature}
use govis.Cggmp21.OnlineSign.{round1, Network, position, run_online_sign}
use govis.Cggmp21.OnlineSign.Delivered.{inbox}
use govis.Cggmp21.OnlineSign.Honest.{share_of, run_online_sign-honest}
use govis.Tests.Setup.{line, two_signers, two_signers-Distinct, weights, weights_lem}

-- The digest 1, the key 3, the nonce 2 and its inverse 3.
abbrev digest : List ℕ
digest = 1 ∷ []

abbrev nonce : Presignature toy
nonce = record { k = n2; k_inv = n3; r = n2; r_point = n2 }

abbrev network : Network ℕ ℕ
network = record {
  on_send = λ m. none;
  round1_msgs = ok (inbox toy (share_of toy n3 weights n1 n2 line) 0 0 two_signers);
}

run_online_sign-honest_example : run_online_sign toy network 0 two_signers n4 n3 digest nonce ≡ (
  p2p 1 (round1 (record { s_i = bytes5 n4 })) ∷ [],
  ok (record { r_bytes = bytes5 n2; s_bytes = bytes5 n1; rec_id = 0 }),
)
unfolding eval
run_online_sign-honest_example =
    run_online_sign-honest toy network 0 0 two_signers line weights digest nonce false
      two_signers-Distinct (omega arith) (omega arith) (unfold position in refl) weights_lem refl
      refl (unfold point_x_coord slice? in refl) refl n1-ne-n0 (λ m. refl) refl

verify_signature_iff_example :
    (verify_signature toy n3 digest (bytes5 n2) (bytes5 n1) ≡ some true)
    ↔ (point_x_coord toy n2 ≡ some n2)
verify_signature_iff_example = verify_signature_iff toy n3 n2 n1 n1 digest refl

verify_signature_complete_example :
    verify_signature toy n3 digest (bytes5 n2) (bytes5 n1) ≡ some true
verify_signature_complete_example =
    verify_signature_complete toy n3 n2 n2 n1 digest (unfold point_x_coord slice? in refl) refl
      (λ e. cc)

verify_signature-zero_s_example :
    (verify_signature toy n3 digest (bytes5 n0) (bytes5 n0) ≡ some true)
    ↔ (point_x_coord toy n0 ≡ some n0)
verify_signature-zero_s_example = verify_signature-zero_s toy n3 n0 digest

-- The points 1 and 4, of which one is the other's negative.
recovery_id-same_x_example : recovery_id toy n1 ≡ recovery_id toy n4
recovery_id-same_x_example =
    recovery_id-same_x toy n1 n4 4 (bytes5 n1) (bytes5 n1) (bytes5 n4) refl refl refl

bitcoin_der_signature-decodes_example :
    (sig : List ℕ) × (bitcoin_der_signature (0 ∷ 200 ∷ 5 ∷ []) (7 ∷ []) ≡ some sig)
    × (decode_signature sig ≡ some (51205, 7))
bitcoin_der_signature-decodes_example =
    bitcoin_der_signature-decodes 0 7 (200 ∷ 5 ∷ []) [] (omega arith)
