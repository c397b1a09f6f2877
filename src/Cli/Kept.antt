-- ===== src/Cli/Kept.antt =====
-- What a run of the program leaves of the files.
pub mod Main
use govis.Prelude.{
  ℕ, Option, none, some, List, Outcome, ok, expect, expect_ok, ok_inj, some_inj, map_err,
  map_err_ok, Bool, true, false, if◌then◌else◌, Option-cases, Bool-cases, inl, inr, codes, ◌≡◌,
  refl, sym, ap, ◌∙◌, All,
}
use govis.Big.{Big}
use govis.Curve.{Curve}
use govis.Ecdsa.{verify_signature}
use govis.Lindell.{LindellDkgOutput}
use govis.Lindell.Sign.{Round3Msg}
use govis.Lindell.Sign.Rounds.{run_sign}
use govis.Lindell.Sign.Verified.{run_sign_ok}
use govis.Cggmp21.KeyData.{Cggmp21KeygenOutput}
use govis.Cggmp21.OnlineSign.Checked.{run_online_sign_ok}
use govis.Cli.{get_arg}
use govis.Cli.Session.{Files, Line, verify_line, Session, Stop, sign_failed, done, or_exit, print}
use govis.Cli.Session.Laws.{Keeps, Keeps-then, Keeps-print, Keeps-done, Keeps-read_file}
use govis.Cli.World.{Libraries, World}
use govis.Cli.Output.{print_keygen_output, print_signature}
use govis.Cli.RunLindell.{
  load_lindell, save_lindell, generate_lindell, obtain_lindell, sign_lindell, sign_found_lindell,
  finish_lindell, run_lindell,
}
use govis.Cli.RunCggmp21.{
  load_cggmp21, save_cggmp21, generate_cggmp21, obtain_cggmp21, sign_cggmp21, sign_found_cggmp21,
  finish_cggmp21, run_cggmp21,
}
use govis.Cli.Main.{index_of, old_key, run_refresh_cli, main}
use govis.Cli.{Config, is_cggmp21}
use govis.Cli.Main.{sid_of}

module _ (c : Curve) (big : Big) (libs : Libraries) (fs : Files) where
  open libs use {sha256}

  pub load_lindell-Keeps : (path : List ℕ) → Keeps (load_lindell c big libs fs path)
  unfolding load_lindell
  load_lindell-Keeps path = search (Keeps-then, Keeps-done, Keeps-read_file) depth 20

  pub save_lindell-Keeps :
      (args : List (List ℕ)) (output : LindellDkgOutput c) (my_index : ℕ)
      → get_arg args (codes "--save-key") ≡ none
      → Keeps (save_lindell c big libs fs args output my_index)
  unfolding save_lindell
  save_lindell-Keeps args output my_index e = rw (save_lindell, e) (Keeps-done (ok tt))

  save_cggmp21-Keeps :
      (args : List (List ℕ)) (output : Cggmp21KeygenOutput c) (my_index : ℕ)
      → get_arg args (codes "--save-key") ≡ none
      → Keeps (save_cggmp21 c big libs fs args output my_index)
  unfolding save_cggmp21
  save_cggmp21-Keeps args output my_index e = rw (save_cggmp21, e) (Keeps-done (ok tt))

  module _ {R E : Type 0} (world : World c R E) where
    generate_lindell-Keeps :
        (my_index n threshold : ℕ) (sid : List ℕ)
        → Keeps (generate_lindell c big libs fs world my_index n threshold sid)
    unfolding generate_lindell print_keygen_output
    generate_lindell-Keeps my_index n threshold sid =
        search (Keeps-then, Keeps-done, Keeps-print) depth 30

    generate_cggmp21-Keeps :
        (my_index n threshold : ℕ) (sid : List ℕ)
        → Keeps (generate_cggmp21 c big libs fs world my_index n threshold sid)
    unfolding generate_cggmp21 print_keygen_output
    generate_cggmp21-Keeps my_index n threshold sid =
        search (Keeps-then, Keeps-done, Keeps-print) depth 30

    load_cggmp21-Keeps : (path : List ℕ) → Keeps (load_cggmp21 c big libs fs world path)
    unfolding load_cggmp21
    load_cggmp21-Keeps path = search (Keeps-then, Keeps-done, Keeps-read_file) depth 20

    sign_lindell-Keeps :
        (my_index n : ℕ) (signers : List ℕ) (output : LindellDkgOutput c) (msg_digest : List ℕ)
        → Keeps (sign_lindell c big libs fs world my_index n signers output msg_digest)
    unfolding sign_lindell print_signature
    sign_lindell-Keeps my_index n signers output msg_digest =
        search (Keeps-then, Keeps-done, Keeps-print) depth 40

    sign_found_lindell-Keeps :
        (my_index n : ℕ) (signers : List ℕ) (output : LindellDkgOutput c) (found : Option (List ℕ))
        → Keeps (sign_found_lindell c big libs fs world my_index n signers output found)
    unfolding sign_found_lindell
    sign_found_lindell-Keeps my_index n signers output (some msg_digest) =
        sign_lindell-Keeps my_index n signers output msg_digest
    sign_found_lindell-Keeps my_index n signers output none = Keeps-done (ok tt)

    pub finish_lindell-Keeps :
        (my_index n : ℕ) (signers : List ℕ) (args : List (List ℕ)) (output : LindellDkgOutput c)
        → Keeps (finish_lindell c big libs fs world my_index n signers args output)
    unfolding finish_lindell
    finish_lindell-Keeps my_index n signers args output = record {
      kept = λ s.
          (Keeps-then _ _ (Keeps-done _)
              (λ found. sign_found_lindell-Keeps my_index n signers output found)).kept
            s;
    }

    sign_cggmp21-Keeps :
        (my_index : ℕ) (signers : List ℕ) (output : Cggmp21KeygenOutput c) (msg_digest : List ℕ)
        → Keeps (sign_cggmp21 c big libs fs world my_index signers output msg_digest)
    unfolding sign_cggmp21 print_signature
    sign_cggmp21-Keeps my_index signers output msg_digest =
        search (Keeps-then, Keeps-done, Keeps-print) depth 40

    sign_found_cggmp21-Keeps :
        (my_index : ℕ) (signers : List ℕ) (output : Cggmp21KeygenOutput c) (found : Option (List ℕ))
        → Keeps (sign_found_cggmp21 c big libs fs world my_index signers output found)
    unfolding sign_found_cggmp21
    sign_found_cggmp21-Keeps my_index signers output (some msg_digest) =
        sign_cggmp21-Keeps my_index signers output msg_digest
    sign_found_cggmp21-Keeps my_index signers output none = Keeps-done (ok tt)

    pub finish_cggmp21-Keeps :
        (my_index : ℕ) (signers : List ℕ) (args : List (List ℕ)) (output : Cggmp21KeygenOutput c)
        → Keeps (finish_cggmp21 c big libs fs world my_index signers args output)
    unfolding finish_cggmp21
    finish_cggmp21-Keeps my_index signers args output = record {
      kept = λ s.
          (Keeps-then _ _ (Keeps-done _)
              (λ found. sign_found_cggmp21-Keeps my_index signers output found)).kept
            s;
    }

    pub obtain_lindell-Keeps :
        (my_index n threshold : ℕ) (sid : List ℕ) (args : List (List ℕ))
        → Keeps (obtain_lindell c big libs fs world my_index n threshold sid args)
    unfolding obtain_lindell
    obtain_lindell-Keeps my_index n threshold sid args =
        elim (Option-cases (get_arg args (codes "--load-key"))) [
          | inl e ↦ rw (obtain_lindell, e) (generate_lindell-Keeps my_index n threshold sid)
          | inr (path, e) ↦ rw (obtain_lindell, e) (load_lindell-Keeps path)
        ]

    pub run_lindell-Keeps :
        (my_index n threshold : ℕ) (signers sid : List ℕ) (args : List (List ℕ))
        → get_arg args (codes "--save-key") ≡ none
        → Keeps (run_lindell c big libs fs world my_index n threshold signers sid args)
    unfolding run_lindell
    run_lindell-Keeps my_index n threshold signers sid args e =
        search (Keeps-then, obtain_lindell-Keeps, save_lindell-Keeps, finish_lindell-Keeps) depth 12

    pub obtain_cggmp21-Keeps :
        (my_index n threshold : ℕ) (sid : List ℕ) (args : List (List ℕ))
        → Keeps (obtain_cggmp21 c big libs fs world my_index n threshold sid args)
    unfolding obtain_cggmp21
    obtain_cggmp21-Keeps my_index n threshold sid args =
        elim (Option-cases (get_arg args (codes "--load-key"))) [
          | inl e ↦ rw (obtain_cggmp21, e) (generate_cggmp21-Keeps my_index n threshold sid)
          | inr (path, e) ↦ rw (obtain_cggmp21, e) (load_cggmp21-Keeps path)
        ]

    pub run_cggmp21-Keeps :
        (my_index n threshold : ℕ) (signers sid : List ℕ) (args : List (List ℕ))
        → get_arg args (codes "--save-key") ≡ none
        → Keeps (run_cggmp21 c big libs fs world my_index n threshold signers sid args)
    unfolding run_cggmp21
    run_cggmp21-Keeps my_index n threshold signers sid args e =
        search (Keeps-then, obtain_cggmp21-Keeps, save_cggmp21-Keeps, finish_cggmp21-Keeps) depth 12
