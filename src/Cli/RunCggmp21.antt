-- ===== src/Cli/RunCggmp21.antt =====
-- src/main.rs: the CGGMP21 protocol from the command line.
use govis.Prelude.{ℕ, Option, none, some, List, codes, ok, expect, ok_or, map_err}
use govis.Big.{Big}
use govis.Curve.{Curve}
use govis.Cggmp21.KeyData.{Cggmp21KeygenOutput, to_key_data, from_key_data}
use govis.Cggmp21.Keygen.{run_keygen}
use govis.Cggmp21.Presign.{run_presign}
use govis.Cggmp21.OnlineSign.{run_online_sign}
use govis.Cli.{get_arg, resolve_digest}
use govis.Cli.Session.{
  Files, Session, ◌>>=◌, ◌>>◌, done, or_exit, read_file, write_file, unreadable_key_file,
  not_a_cggmp21_key, connection_failed, reconnect_failed, sign_reconnect_failed, keygen_failed,
  presign_failed, online_sign_failed, bad_digest,
}
use govis.Cli.World.{Libraries, World}
use govis.Cli.Output.{print_keygen_output, print_signature}

module _ (c : Curve) (big : Big) (libs : Libraries) (fs : Files) where
  open libs use {sha256, hex_decode, deserialize_cggmp21, serialize_cggmp21}

  unfoldable pub save_cggmp21 :
      List (List ℕ) → Cggmp21KeygenOutput c → ℕ → Session c fs.State (Unit {0})
  save_cggmp21 args output my_index = elim (get_arg args (codes "--save-key")) [
    | some path ↦ done (expect (serialize_cggmp21 (to_key_data c output my_index))) >>= λ bytes.
        write_file fs path bytes
    | none ↦ done (ok tt)
  ]

  module _ {R E : Type 0} (world : World c R E) where
    -- The key of a file, with the Paillier keys that `from_key_data` generates.
    unfoldable pub load_cggmp21 : List ℕ → Session c fs.State (Cggmp21KeygenOutput c)
    load_cggmp21 path = do
      bytes ← read_file fs unreadable_key_file path
      key_data ← done (ok_or not_a_cggmp21_key (deserialize_cggmp21 bytes))
      done (expect (from_key_data c world.loaded_kp key_data))

    unfoldable pub generate_cggmp21 :
        ℕ → ℕ → ℕ → List ℕ → Session c fs.State (Cggmp21KeygenOutput c)
    generate_cggmp21 my_index n threshold sid = do
      _ ← or_exit connection_failed world.connection
      output ←
          or_exit keygen_failed
            (run_keygen c big sha256 world.keygen_net my_index n threshold sid world.keygen_draws).1
      print_keygen_output c my_index output.public_key output.ec_share
      done (ok output)

    unfoldable pub obtain_cggmp21 :
        ℕ → ℕ → ℕ → List ℕ → List (List ℕ) → Session c fs.State (Cggmp21KeygenOutput c)
    obtain_cggmp21 my_index n threshold sid args = elim (get_arg args (codes "--load-key")) [
      | some path ↦ load_cggmp21 path
      | none ↦ generate_cggmp21 my_index n threshold sid
    ]

    unfoldable pub sign_cggmp21 :
        ℕ → List ℕ → Cggmp21KeygenOutput c → List ℕ → Session c fs.State (Unit {0})
    sign_cggmp21 my_index signers output msg_digest = do
      _ ← or_exit reconnect_failed world.reconnection
      presig ←
          or_exit presign_failed
            (run_presign c big sha256 world.presign_net my_index signers world.presign_draws).1
      _ ← or_exit sign_reconnect_failed world.sign_reconnection
      sig ←
          or_exit online_sign_failed
            (run_online_sign c world.online_net my_index signers output.ec_share output.public_key
              msg_digest presig).1
      print_signature c my_index output.public_key msg_digest sig.r_bytes sig.s_bytes sig.rec_id

    -- `if let Some(msg_digest)`.
    unfoldable pub sign_found_cggmp21 :
        ℕ → List ℕ → Cggmp21KeygenOutput c → Option (List ℕ) → Session c fs.State (Unit {0})
    sign_found_cggmp21 my_index signers output (some msg_digest) =
        sign_cggmp21 my_index signers output msg_digest
    sign_found_cggmp21 my_index signers output none = done (ok tt)

    -- The signing that follows, if there is a digest.
    unfoldable pub finish_cggmp21 :
        ℕ → List ℕ → List (List ℕ) → Cggmp21KeygenOutput c → Session c fs.State (Unit {0})
    finish_cggmp21 my_index signers args output s =
        (done (map_err bad_digest (resolve_digest hex_decode (fs.read s) sha256 args)) >>= λ found.
        sign_found_cggmp21 my_index signers output found)
          s

    unfoldable pub run_cggmp21 :
        ℕ → ℕ → ℕ → List ℕ → List ℕ → List (List ℕ) → Session c fs.State (Unit {0})
    run_cggmp21 my_index n threshold signers sid args = do
      output ← obtain_cggmp21 my_index n threshold sid args
      save_cggmp21 args output my_index
      finish_cggmp21 my_index signers args output
