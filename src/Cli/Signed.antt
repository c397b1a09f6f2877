-- ===== src/Cli/Signed.antt =====
-- A CGGMP21 signing that gets its signature prints it, and nothing fails after that.
use govis.Prelude.{
  ℕ, ◌+◌, ◌%◌, ◌^◌, none, some, List, [], ◌∷◌, ◌++◌, length, length-append, ok, true, ◌≡◌, refl,
  arith,
}
use govis.Big.{Big}
use govis.Curve.{Curve, be_value}
use govis.Ecdsa.{ethereum_signature, bitcoin_der_signature}
use govis.Ecdsa.Der.{decode_signature}
use govis.Ecdsa.Encoding.{bitcoin_der_signature-decodes}
use govis.Cggmp21.{Presignature}
use govis.Cggmp21.Presign.{run_presign}
use govis.Cggmp21.KeyData.{Cggmp21KeygenOutput}
use govis.Cggmp21.OnlineSign.{Signature, run_online_sign}
use govis.Cggmp21.OnlineSign.Checked.{run_online_sign_ok, run_online_sign-Sized}
use govis.Cli.Session.{
  Files, Line, ◌>>=◌, done, print, signature_header, r_line, s_line, rec_id_line, verify_line,
  ethereum_line, ethereum_eip155_line, bitcoin_line,
}
use govis.Cli.World.{Libraries, World}
use govis.Cli.Output.{print_signature}
use govis.Cli.RunCggmp21.{sign_cggmp21}

der_of_sized :
    (r_bytes s_bytes : List ℕ)
    → length r_bytes ≡ 32
    → length s_bytes ≡ 32
    → (der : List ℕ) × (bitcoin_der_signature r_bytes s_bytes ≡ some der)
      × (decode_signature der ≡ some (be_value r_bytes, be_value s_bytes))
der_of_sized [] s_bytes h k = absurd (omega (arith, h))
der_of_sized (b ∷ r_bytes) [] h k = absurd (omega (arith, k))
der_of_sized (b ∷ r_bytes) (b' ∷ s_bytes) h k =
    bitcoin_der_signature-decodes b b' r_bytes s_bytes (omega (arith, h, k))

length-ethereum_signature :
    (r_bytes s_bytes : List ℕ) (rec_id : ℕ)
    → length r_bytes ≡ 32
    → length s_bytes ≡ 32
    → length (ethereum_signature r_bytes s_bytes rec_id none) ≡ 65
unfolding ethereum_signature
length-ethereum_signature r_bytes s_bytes rec_id h k =
    let v : List ℕ = ((rec_id + 27) % 2 ^ 8) ∷ [] in
    omega (arith, h, k, length-append r_bytes (s_bytes ++ v), length-append s_bytes v)

module _ (c : Curve) (big : Big) (libs : Libraries) (fs : Files) {R E : Type 0}
    (world : World c R E) where
  -- The lines of a valid signature.
  abbrev pub signature_lines : ℕ → Signature → List ℕ → List (Line c)
  signature_lines my_index sig der =
      signature_header my_index
      ∷ r_line sig.r_bytes
      ∷ s_line sig.s_bytes
      ∷ rec_id_line sig.rec_id
      ∷ verify_line true
      ∷ ethereum_line (ethereum_signature sig.r_bytes sig.s_bytes sig.rec_id none)
      ∷ ethereum_eip155_line (ethereum_signature sig.r_bytes sig.s_bytes sig.rec_id (some 1))
      ∷ bitcoin_line der
      ∷ []

  -- When both connections are made and presigning and the online phase return, the signing ends without
  -- an error or a panic, changes no file, and prints the signature as valid, with an Ethereum form of 65
  -- bytes and a Bitcoin form that the strict DER decoder reads back as its two numbers.
  pub sign_cggmp21-prints :
      (my_index : ℕ) (signers : List ℕ) (output : Cggmp21KeygenOutput c) (msg_digest : List ℕ)
      (presig : Presignature c) (sig : Signature) (s : fs.State)
      → world.reconnection ≡ ok tt
      → world.sign_reconnection ≡ ok tt
      → (run_presign c big libs.sha256 world.presign_net my_index signers world.presign_draws).1
        ≡ ok presig
      → (run_online_sign c world.online_net my_index signers output.ec_share output.public_key
          msg_digest presig).1
        ≡ ok sig
      → (der : List ℕ) × (sign_cggmp21 c big libs fs world my_index signers output msg_digest s
          ≡ (signature_lines my_index sig der, s, ok tt))
        × (decode_signature der ≡ some (be_value sig.r_bytes, be_value sig.s_bytes))
        × (length (ethereum_signature sig.r_bytes sig.s_bytes sig.rec_id none) ≡ 65)
  unfolding sign_cggmp21 print_signature done print ◌>>=◌
  sign_cggmp21-prints my_index signers output msg_digest presig sig s e1 e2 p o =
      let (hr, hs) =
        run_online_sign-Sized c world.online_net my_index signers output.ec_share output.public_key
          msg_digest presig sig o in
      let valid =
        run_online_sign_ok c world.online_net my_index signers output.ec_share output.public_key
          msg_digest presig sig o in
      let (der, e, decoded) = der_of_sized sig.r_bytes sig.s_bytes hr hs in
      (
        der,
        rw (e1, p, e2, o, valid, e) refl,
        decoded,
        length-ethereum_signature sig.r_bytes sig.s_bytes sig.rec_id hr hs,
      )
