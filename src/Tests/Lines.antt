-- ===== src/Tests/Lines.antt =====
-- A party signs with another, and prints the signature.
use govis.Prelude.{◌≡◌, refl, ℕ, List, [], ◌∷◌, ok, none, some, length}
use govis.Big.{toy_big}
use govis.Curve.{be_value}
use govis.Curve.Toy.{toy, n2, n3, n4, bytes5}
use govis.Ecdsa.{verify_signature, ethereum_signature}
use govis.Ecdsa.Der.{decode_signature}
use govis.Cggmp21.{Presignature}
use govis.Cggmp21.KeyData.{Cggmp21KeygenOutput}
use govis.Cggmp21.OnlineSign.{
  Signature, run_online_sign, position, send_shares, add_shares, recovery_id,
}
use govis.Vss.{lagrange_coeff, lagrange_loop, point_x_coord}
use govis.Vss.Polynomial.{eval}
use govis.Prelude.{slice?}
use govis.Curve.Toy.{F5-discrete}
use govis.Cli.RunCggmp21.{sign_cggmp21}
use govis.Cli.Signed.{signature_lines, sign_cggmp21-prints}
use govis.Tests.Setup.{public_77, private_77, two_signers}
use govis.Tests.Commands.{world}
use govis.Tests.Presigning.{sign_network, presigned}
use govis.Tests.Files.{memory, toy_libraries}

abbrev output : Cggmp21KeygenOutput toy
output = record {
  ec_share = n4;
  public_key = n3;
  paillier_sk = private_77;
  paillier_pk = public_77;
  peer_paillier_pks = [];
}

abbrev presig : Presignature toy
presig = record { k = n3; k_inv = n2; r = n2; r_point = n3 }

abbrev signature : Signature
signature = record { r_bytes = bytes5 n2; s_bytes = bytes5 n4; rec_id = 1 }

signed : (run_online_sign toy sign_network 0 two_signers n4 n3 (1 ∷ []) presig).1 ≡ ok signature
unfolding run_online_sign position send_shares add_shares recovery_id lagrange_coeff lagrange_loop
    verify_signature point_x_coord slice? F5-discrete eval
signed = refl

sign_cggmp21-prints_example :
    (der : List ℕ) × (sign_cggmp21 toy toy_big toy_libraries memory world 0 two_signers output
        (1 ∷ [])
        []
      ≡ (signature_lines toy toy_big toy_libraries memory world 0 signature der, [], ok tt))
    × (decode_signature der ≡ some (be_value (bytes5 n2), be_value (bytes5 n4)))
    × (length (ethereum_signature (bytes5 n2) (bytes5 n4) 1 none) ≡ 65)
sign_cggmp21-prints_example =
    sign_cggmp21-prints toy toy_big toy_libraries memory world 0 two_signers output (1 ∷ []) presig
      signature [] refl refl presigned signed
