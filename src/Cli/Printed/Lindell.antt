-- ===== src/Cli/Printed/Lindell.antt =====
-- What a run of the Lindell protocol prints.
use govis.Prelude.{
  ℕ, Option, none, some, List, ok, map_err, map_err_ok, true, Option-cases, inl, inr, codes, ◌≡◌,
}
use govis.Big.{Big}
use govis.Curve.{Curve}
use govis.Ecdsa.{verify_signature}
use govis.Lindell.{LindellDkgOutput}
use govis.Lindell.Sign.{Round3Msg}
use govis.Lindell.Sign.Rounds.{run_sign}
use govis.Lindell.Sign.Verified.{run_sign_ok}
use govis.Cli.{get_arg}
use govis.Cli.Session.{Files, sign_failed}
use govis.Cli.Session.Laws.{
  Prints, Prints-then, Prints-done_then, Prints-done, Prints-read_file, Prints-write_file,
}
use govis.Cli.World.{Libraries, World}
use govis.Cli.RunLindell.{
  load_lindell, save_lindell, generate_lindell, obtain_lindell, sign_lindell, sign_found_lindell,
  finish_lindell, run_lindell,
}
use govis.Cli.Printed.{Verified, print_keygen_output-Verified, print_signature-Verified}

module _ (c : Curve) (big : Big) (libs : Libraries) (fs : Files) where
  open libs use {sha256}

  pub load_lindell-Verified : (path : List ℕ) → Prints Verified (load_lindell c big libs fs path)
  unfolding load_lindell
  load_lindell-Verified path = search (Prints-then, Prints-done, Prints-read_file) depth 20

  pub save_lindell-Verified :
      (args : List (List ℕ)) (output : LindellDkgOutput c) (my_index : ℕ)
      → Prints Verified (save_lindell c big libs fs args output my_index)
  unfolding save_lindell
  save_lindell-Verified args output my_index =
      elim (Option-cases (get_arg args (codes "--save-key"))) [
        | inl e ↦ rw (save_lindell, e) (Prints-done _)
        | inr (path, e) ↦
            rw (save_lindell, e) (search (Prints-then, Prints-done, Prints-write_file) depth 20)
      ]

  module _ {R E : Type 0} (world : World c R E) where
    generate_lindell-Verified :
        (my_index n threshold : ℕ) (sid : List ℕ)
        → Prints Verified (generate_lindell c big libs fs world my_index n threshold sid)
    unfolding generate_lindell
    generate_lindell-Verified my_index n threshold sid =
        search (Prints-then, Prints-done, print_keygen_output-Verified) depth 30

    signed_lindell :
        (my_index n first second : ℕ) (output : LindellDkgOutput c) (msg_digest : List ℕ)
        (sig : Round3Msg)
        → map_err
            (λ _. sign_failed)
            (run_sign c big sha256 world.sign_net my_index n first second output.secret_share
              output.public_key msg_digest world.p1_draws world.p2_draws).1
          ≡ ok sig
        → verify_signature c output.public_key msg_digest sig.r_bytes sig.s_bytes ≡ some true
    signed_lindell my_index n first second output msg_digest sig e =
        run_sign_ok c big sha256 world.sign_net my_index n first second output.secret_share
          output.public_key msg_digest world.p1_draws world.p2_draws sig (map_err_ok _ _ sig e)

    sign_lindell-Verified :
        (my_index n : ℕ) (signers : List ℕ) (output : LindellDkgOutput c) (msg_digest : List ℕ)
        → Prints Verified (sign_lindell c big libs fs world my_index n signers output msg_digest)
    unfolding sign_lindell
    sign_lindell-Verified my_index n signers output msg_digest =
        search
          (Prints-done_then, Prints-then, Prints-done, print_signature-Verified, signed_lindell)
          depth 40

    sign_found_lindell-Verified :
        (my_index n : ℕ) (signers : List ℕ) (output : LindellDkgOutput c) (found : Option (List ℕ))
        → Prints Verified (sign_found_lindell c big libs fs world my_index n signers output found)
    unfolding sign_found_lindell
    sign_found_lindell-Verified my_index n signers output (some msg_digest) =
        sign_lindell-Verified my_index n signers output msg_digest
    sign_found_lindell-Verified my_index n signers output none = Prints-done (ok tt)

    finish_lindell-Verified :
        (my_index n : ℕ) (signers : List ℕ) (args : List (List ℕ)) (output : LindellDkgOutput c)
        → Prints Verified (finish_lindell c big libs fs world my_index n signers args output)
    unfolding finish_lindell
    finish_lindell-Verified my_index n signers args output = record {
      printed = λ s.
          (Prints-done_then _ _
              (λ found _. sign_found_lindell-Verified my_index n signers output found)).printed
            s;
    }

    obtain_lindell-Verified :
        (my_index n threshold : ℕ) (sid : List ℕ) (args : List (List ℕ))
        → Prints Verified (obtain_lindell c big libs fs world my_index n threshold sid args)
    unfolding obtain_lindell
    obtain_lindell-Verified my_index n threshold sid args =
        elim (Option-cases (get_arg args (codes "--load-key"))) [
          | inl e ↦ rw (obtain_lindell, e) (generate_lindell-Verified my_index n threshold sid)
          | inr (path, e) ↦ rw (obtain_lindell, e) (load_lindell-Verified path)
        ]

    pub run_lindell-Verified :
        (my_index n threshold : ℕ) (signers sid : List ℕ) (args : List (List ℕ))
        → Prints Verified (run_lindell c big libs fs world my_index n threshold signers sid args)
    unfolding run_lindell
    run_lindell-Verified my_index n threshold signers sid args =
        search
          (Prints-then, obtain_lindell-Verified, save_lindell-Verified, finish_lindell-Verified)
          depth 12
