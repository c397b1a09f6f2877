-- ===== src/Cli/RunLindell.antt =====
-- src/main.rs: the Lindell protocol from the command line.
use govis.Prelude.{
  ℕ, Option, none, some, List, length, ◌==◌, codes, ok, expect, ok_or, ensure, map_err, get_elem?,
}
use govis.Big.{Big}
use govis.Curve.{Curve}
use govis.Lindell.{LindellDkgOutput}
use govis.Lindell.KeyData.{to_key_data, from_key_data}
use govis.Lindell.Dkg.{run_dkg}
use govis.Lindell.Sign.Rounds.{run_sign}
use govis.Cli.{get_arg, resolve_digest}
use govis.Cli.Session.{
  Files, Session, ◌>>=◌, ◌>>◌, done, or_exit, read_file, write_file, unreadable_key_file,
  not_a_lindell_key, connection_failed, reconnect_failed, dkg_failed, sign_failed,
  two_signers_required, bad_digest,
}
use govis.Cli.World.{Libraries, World}
use govis.Cli.Output.{print_keygen_output, print_signature}

module _ (c : Curve) (big : Big) (libs : Libraries) (fs : Files) where
  open libs use {sha256, hex_decode, deserialize_lindell, serialize_lindell}

  -- The key of a file.
  unfoldable pub load_lindell : List ℕ → Session c fs.State (LindellDkgOutput c)
  load_lindell path = do
    bytes ← read_file fs unreadable_key_file path
    key_data ← done (ok_or not_a_lindell_key (deserialize_lindell bytes))
    done (expect (from_key_data c key_data))

  -- `--save-key`.
  unfoldable pub save_lindell :
      List (List ℕ) → LindellDkgOutput c → ℕ → Session c fs.State (Unit {0})
  save_lindell args output my_index = elim (get_arg args (codes "--save-key")) [
    | some path ↦ done (expect (serialize_lindell (to_key_data c output my_index))) >>= λ bytes.
        write_file fs path bytes
    | none ↦ done (ok tt)
  ]

  module _ {R E : Type 0} (world : World c R E) where
    unfoldable pub generate_lindell : ℕ → ℕ → ℕ → List ℕ → Session c fs.State (LindellDkgOutput c)
    generate_lindell my_index n threshold sid = do
      _ ← or_exit connection_failed world.connection
      output ←
          or_exit dkg_failed
            (run_dkg c sha256 world.dkg_net my_index n threshold sid world.dkg_secret
              world.dkg_draw).1
      print_keygen_output c my_index output.public_key output.secret_share
      done (ok output)

    unfoldable pub obtain_lindell :
        ℕ → ℕ → ℕ → List ℕ → List (List ℕ) → Session c fs.State (LindellDkgOutput c)
    obtain_lindell my_index n threshold sid args = elim (get_arg args (codes "--load-key")) [
      | some path ↦ load_lindell path
      | none ↦ generate_lindell my_index n threshold sid
    ]

    unfoldable pub sign_lindell :
        ℕ → ℕ → List ℕ → LindellDkgOutput c → List ℕ → Session c fs.State (Unit {0})
    sign_lindell my_index n signers output msg_digest = do
      _ ← or_exit reconnect_failed world.reconnection
      done (ensure (length signers == 2) two_signers_required)
      first ← done (expect (get_elem? signers 0))
      second ← done (expect (get_elem? signers 1))
      sig ←
          or_exit sign_failed
            (run_sign c big sha256 world.sign_net my_index n first second output.secret_share
              output.public_key msg_digest world.p1_draws world.p2_draws).1
      print_signature c my_index output.public_key msg_digest sig.r_bytes sig.s_bytes sig.rec_id

    -- `if let Some(msg_digest)`.
    unfoldable pub sign_found_lindell :
        ℕ → ℕ → List ℕ → LindellDkgOutput c → Option (List ℕ) → Session c fs.State (Unit {0})
    sign_found_lindell my_index n signers output (some msg_digest) =
        sign_lindell my_index n signers output msg_digest
    sign_found_lindell my_index n signers output none = done (ok tt)

    -- The signing that follows, if there is a digest.
    unfoldable pub finish_lindell :
        ℕ → ℕ → List ℕ → List (List ℕ) → LindellDkgOutput c → Session c fs.State (Unit {0})
    finish_lindell my_index n signers args output s =
        (done (map_err bad_digest (resolve_digest hex_decode (fs.read s) sha256 args)) >>= λ found.
        sign_found_lindell my_index n signers output found)
          s

    unfoldable pub run_lindell :
        ℕ → ℕ → ℕ → List ℕ → List ℕ → List (List ℕ) → Session c fs.State (Unit {0})
    run_lindell my_index n threshold signers sid args = do
      output ← obtain_lindell my_index n threshold sid args
      save_lindell args output my_index
      finish_lindell my_index n signers args output
