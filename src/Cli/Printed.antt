-- ===== src/Cli/Printed.antt =====
-- Which answers of the verification the program can print.
pub mod Lindell
pub mod Cggmp21
pub mod Main
use govis.Prelude.{
  ℕ, Option, none, some, List, Outcome, ok, expect, expect_ok, ok_inj, some_inj, map_err,
  map_err_ok, Bool, true, false, if◌then◌else◌, Option-cases, inl, inr, codes, ◌≡◌, refl, sym, ap,
  ◌∙◌, All,
}
use govis.Big.{Big}
use govis.Curve.{Curve}
use govis.Ecdsa.{verify_signature}
use govis.Lindell.{LindellDkgOutput}
use govis.Lindell.Sign.{Round3Msg}
use govis.Lindell.Sign.Rounds.{run_sign}
use govis.Lindell.Sign.Verified.{run_sign_ok}
use govis.Cggmp21.KeyData.{Cggmp21KeygenOutput}
use govis.Cggmp21.OnlineSign.Checked.{run_online_sign_ok}
use govis.Cli.{get_arg}
use govis.Cli.Session.{Files, Line, verify_line, Session, Stop, sign_failed, done, or_exit, print}
use govis.Cli.Session.Laws.{
  Prints, Prints-then, Prints-done_then, Prints-print, Prints-done, Prints-read_file,
  Prints-write_file,
}
use govis.Cli.World.{Libraries, World}
use govis.Cli.Output.{print_keygen_output, print_signature}
use govis.Cli.RunLindell.{
  load_lindell, save_lindell, generate_lindell, obtain_lindell, sign_lindell, finish_lindell,
  run_lindell,
}
use govis.Cli.RunCggmp21.{
  load_cggmp21, save_cggmp21, generate_cggmp21, obtain_cggmp21, sign_cggmp21, finish_cggmp21,
  run_cggmp21,
}
use govis.Cli.Main.{index_of, old_key, run_refresh_cli, main}

-- A line that does not report an invalid signature.
abbrev pub Verified : {c : Curve} → Line c → Type 0
Verified line = elim line [ verify_line valid ↦ valid ≡ true | _ ↦ Unit ]

valid_true :
    (o : Option Bool) (valid : Bool) → o ≡ some true → expect {E = Stop} o ≡ ok valid → valid ≡ true
valid_true o valid h e = sym (some_inj (sym h ∙ expect_ok o valid e))

module _ (c : Curve) {S : Type 0} where
  pub print_keygen_output-Verified :
      (my_index : ℕ) (public_key : c.Point) (secret_share : c.Scalar)
      → Prints Verified (print_keygen_output c {S = S} my_index public_key secret_share)
  unfolding print_keygen_output
  print_keygen_output-Verified my_index public_key secret_share =
      search (Prints-then, Prints-print) depth 12

  pub print_signature-Verified :
      (my_index : ℕ) (public_key : c.Point) (msg_digest r_bytes s_bytes : List ℕ) (rec_id : ℕ)
      → verify_signature c public_key msg_digest r_bytes s_bytes ≡ some true
      → Prints Verified
          (print_signature c {S = S} my_index public_key msg_digest r_bytes s_bytes rec_id)
  unfolding print_signature
  print_signature-Verified my_index public_key msg_digest r_bytes s_bytes rec_id h =
      search (Prints-done_then, Prints-then, Prints-print, Prints-done, valid_true) depth 40
