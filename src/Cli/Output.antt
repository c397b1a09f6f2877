-- ===== src/Cli/Output.antt =====
-- src/main.rs: what is printed of a key and of a signature.
use govis.Prelude.{ℕ, none, some, List, expect}
use govis.Curve.{Curve}
use govis.Ecdsa.{verify_signature, ethereum_signature, bitcoin_der_signature}
use govis.Cli.Session.{
  keygen_header, public_key_line, secret_share_line, signature_header, r_line, s_line, rec_id_line,
  verify_line, ethereum_line, ethereum_eip155_line, bitcoin_line, Session, ◌>>=◌, ◌>>◌, print, done,
}

module _ (c : Curve) {S : Type 0} where
  unfoldable pub print_keygen_output : ℕ → c.Point → c.Scalar → Session c S (Unit {0})
  print_keygen_output my_index public_key secret_share = do
    print (keygen_header my_index)
    print (public_key_line public_key)
    print (secret_share_line (c.to_be_bytes secret_share))

  unfoldable pub print_signature :
      ℕ → c.Point → List ℕ → List ℕ → List ℕ → ℕ → Session c S (Unit {0})
  print_signature my_index public_key msg_digest r_bytes s_bytes rec_id = do
    print (signature_header my_index)
    print (r_line r_bytes)
    print (s_line s_bytes)
    print (rec_id_line rec_id)
    valid ← done (expect (verify_signature c public_key msg_digest r_bytes s_bytes))
    print (verify_line valid)
    print (ethereum_line (ethereum_signature r_bytes s_bytes rec_id none))
    print (ethereum_eip155_line (ethereum_signature r_bytes s_bytes rec_id (some 1)))
    btc_sig ← done (expect (bitcoin_der_signature r_bytes s_bytes))
    print (bitcoin_line btc_sig)
