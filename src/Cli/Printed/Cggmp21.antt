-- ===== src/Cli/Printed/Cggmp21.antt =====
-- What a run of the CGGMP21 protocol prints.
use govis.Prelude.{
  ℕ, Option, none, some, List, ok, map_err, map_err_ok, true, Option-cases, inl, inr, codes, ◌≡◌,
}
use govis.Big.{Big}
use govis.Curve.{Curve}
use govis.Ecdsa.{verify_signature}
use govis.Cggmp21.{Presignature}
use govis.Cggmp21.OnlineSign.{Signature, run_online_sign}
use govis.Cggmp21.KeyData.{Cggmp21KeygenOutput}
use govis.Cggmp21.OnlineSign.Checked.{run_online_sign_ok}
use govis.Cli.{get_arg}
use govis.Cli.Session.{Files, online_sign_failed}
use govis.Cli.Session.Laws.{
  Prints, Prints-then, Prints-done_then, Prints-done, Prints-read_file, Prints-write_file,
}
use govis.Cli.World.{Libraries, World}
use govis.Cli.RunCggmp21.{
  load_cggmp21, save_cggmp21, generate_cggmp21, obtain_cggmp21, sign_cggmp21, sign_found_cggmp21,
  finish_cggmp21, run_cggmp21,
}
use govis.Cli.Printed.{Verified, print_keygen_output-Verified, print_signature-Verified}

module _ (c : Curve) (big : Big) (libs : Libraries) (fs : Files) where
  open libs use {sha256}

  save_cggmp21-Verified :
      (args : List (List ℕ)) (output : Cggmp21KeygenOutput c) (my_index : ℕ)
      → Prints Verified (save_cggmp21 c big libs fs args output my_index)
  unfolding save_cggmp21
  save_cggmp21-Verified args output my_index =
      elim (Option-cases (get_arg args (codes "--save-key"))) [
        | inl e ↦ rw (save_cggmp21, e) (Prints-done _)
        | inr (path, e) ↦
            rw (save_cggmp21, e) (search (Prints-then, Prints-done, Prints-write_file) depth 20)
      ]

  module _ {R E : Type 0} (world : World c R E) where
    load_cggmp21-Verified :
        (path : List ℕ) → Prints Verified (load_cggmp21 c big libs fs world path)
    unfolding load_cggmp21
    load_cggmp21-Verified path = search (Prints-then, Prints-done, Prints-read_file) depth 20

    generate_cggmp21-Verified :
        (my_index n threshold : ℕ) (sid : List ℕ)
        → Prints Verified (generate_cggmp21 c big libs fs world my_index n threshold sid)
    unfolding generate_cggmp21
    generate_cggmp21-Verified my_index n threshold sid =
        search (Prints-then, Prints-done, print_keygen_output-Verified) depth 30

    signed_cggmp21 :
        (my_index : ℕ) (signers : List ℕ) (output : Cggmp21KeygenOutput c) (msg_digest : List ℕ)
        (presig : Presignature c) (sig : Signature)
        → map_err
            (λ _. online_sign_failed)
            (run_online_sign c world.online_net my_index signers output.ec_share output.public_key
              msg_digest presig).1
          ≡ ok sig
        → verify_signature c output.public_key msg_digest sig.r_bytes sig.s_bytes ≡ some true
    signed_cggmp21 my_index signers output msg_digest presig sig e =
        run_online_sign_ok c world.online_net my_index signers output.ec_share output.public_key
          msg_digest presig sig (map_err_ok _ _ sig e)

    sign_cggmp21-Verified :
        (my_index : ℕ) (signers : List ℕ) (output : Cggmp21KeygenOutput c) (msg_digest : List ℕ)
        → Prints Verified (sign_cggmp21 c big libs fs world my_index signers output msg_digest)
    unfolding sign_cggmp21
    sign_cggmp21-Verified my_index signers output msg_digest =
        search
          (Prints-done_then, Prints-then, Prints-done, print_signature-Verified, signed_cggmp21)
          depth 40

    sign_found_cggmp21-Verified :
        (my_index : ℕ) (signers : List ℕ) (output : Cggmp21KeygenOutput c) (found : Option (List ℕ))
        → Prints Verified (sign_found_cggmp21 c big libs fs world my_index signers output found)
    unfolding sign_found_cggmp21
    sign_found_cggmp21-Verified my_index signers output (some msg_digest) =
        sign_cggmp21-Verified my_index signers output msg_digest
    sign_found_cggmp21-Verified my_index signers output none = Prints-done (ok tt)

    finish_cggmp21-Verified :
        (my_index : ℕ) (signers : List ℕ) (args : List (List ℕ)) (output : Cggmp21KeygenOutput c)
        → Prints Verified (finish_cggmp21 c big libs fs world my_index signers args output)
    unfolding finish_cggmp21
    finish_cggmp21-Verified my_index signers args output = record {
      printed = λ s.
          (Prints-done_then _ _
              (λ found _. sign_found_cggmp21-Verified my_index signers output found)).printed
            s;
    }

    obtain_cggmp21-Verified :
        (my_index n threshold : ℕ) (sid : List ℕ) (args : List (List ℕ))
        → Prints Verified (obtain_cggmp21 c big libs fs world my_index n threshold sid args)
    unfolding obtain_cggmp21
    obtain_cggmp21-Verified my_index n threshold sid args =
        elim (Option-cases (get_arg args (codes "--load-key"))) [
          | inl e ↦ rw (obtain_cggmp21, e) (generate_cggmp21-Verified my_index n threshold sid)
          | inr (path, e) ↦ rw (obtain_cggmp21, e) (load_cggmp21-Verified path)
        ]

    pub run_cggmp21-Verified :
        (my_index n threshold : ℕ) (signers sid : List ℕ) (args : List (List ℕ))
        → Prints Verified (run_cggmp21 c big libs fs world my_index n threshold signers sid args)
    unfolding run_cggmp21
    run_cggmp21-Verified my_index n threshold signers sid args =
        search
          (Prints-then, obtain_cggmp21-Verified, save_cggmp21-Verified, finish_cggmp21-Verified)
          depth 12
