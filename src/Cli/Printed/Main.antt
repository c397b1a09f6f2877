-- ===== src/Cli/Printed/Main.antt =====
-- What a run of the program prints.
use govis.Prelude.{ℕ, List, if◌then◌else◌, Option-cases, Bool-cases, inl, inr, codes, All}
use govis.Big.{Big}
use govis.Curve.{Curve}
use govis.Cli.{get_arg}
use govis.Cli.Session.{Files}
use govis.Cli.Session.Laws.{Prints, Prints-then, Prints-print, Prints-done, Prints-read_file}
use govis.Cli.World.{Libraries, World}
use govis.Cli.RunLindell.{run_lindell}
use govis.Cli.RunCggmp21.{run_cggmp21}
use govis.Cli.Main.{index_of, old_key, run_refresh_cli, main}
use govis.Cli.Printed.Lindell.{load_lindell-Verified, save_lindell-Verified, run_lindell-Verified}
use govis.Cli.Printed.Cggmp21.{run_cggmp21-Verified}
use govis.Cli.{Config, is_cggmp21}
use govis.Cli.Main.{sid_of}
use govis.Cli.Printed.{Verified}

module _ (c : Curve) (big : Big) (libs : Libraries) (fs : Files) where
  index_of-Verified : (args : List (List ℕ)) → Prints Verified (index_of c big libs fs args)
  unfolding index_of
  index_of-Verified args = elim (Option-cases (get_arg args (codes "--load-key"))) [
    | inr (path, e) ↦
        rw (index_of, e) (search (Prints-then, Prints-done, Prints-read_file) depth 20)
    | inl e ↦ elim (Option-cases (get_arg args (codes "--index"))) [
      | inl f ↦ rw (index_of, e, f) (Prints-done _)
      | inr (s, f) ↦ rw (index_of, e, f) (Prints-done _)
    ]
  ]

  old_key-Verified : (args : List (List ℕ)) → Prints Verified (old_key c big libs fs args)
  unfolding old_key
  old_key-Verified args = elim (Option-cases (get_arg args (codes "--load-key"))) [
    | inl e ↦ rw (old_key, e) (Prints-done _)
    | inr (path, e) ↦ rw (old_key, e) (load_lindell-Verified c big libs fs path)
  ]

  module _ {R E : Type 0} (world : World c R E) where
    run_refresh_cli-Verified :
        (my_index n threshold : ℕ) (sid : List ℕ) (args : List (List ℕ))
        → Prints Verified (run_refresh_cli c big libs fs world my_index n threshold sid args)
    unfolding run_refresh_cli
    run_refresh_cli-Verified my_index n threshold sid args =
        search (Prints-then, Prints-done, Prints-print, old_key-Verified, save_lindell-Verified)
          depth 40

    chosen-Verified :
        (my_index : ℕ) (config : Config) (args : List (List ℕ))
        → Prints Verified (
            if config.refresh
            then run_refresh_cli c big libs fs world my_index config.n config.threshold
                (sid_of args)
                args
            else if is_cggmp21 config.protocol
            then run_cggmp21 c big libs fs world my_index config.n config.threshold config.signers
                (sid_of args)
                args
            else run_lindell c big libs fs world my_index config.n config.threshold config.signers
                (sid_of args)
                args)
    chosen-Verified my_index config args = elim (Bool-cases config.refresh) [
      | inl e ↦ rw e (run_refresh_cli-Verified _ _ _ _ _)
      | inr e ↦ elim (Bool-cases (is_cggmp21 config.protocol)) [
        | inl f ↦ rw (e, f) (run_cggmp21-Verified c big libs fs world _ _ _ _ _ _)
        | inr f ↦ rw (e, f) (run_lindell-Verified c big libs fs world _ _ _ _ _ _)
      ]
    ]

    -- Whatever the arguments, the files and the network are, the program never prints that a signature is
    -- invalid: every line `Verify:` that it prints says true.
    pub main-Verified :
        (args : List (List ℕ)) (s : fs.State) → All Verified (main c big libs fs world args s).0
    unfolding main
    main-Verified args = returned.printed
      where
        returned : Prints Verified (main c big libs fs world args)
        returned = search (Prints-then, Prints-done, index_of-Verified, chosen-Verified) depth 20
