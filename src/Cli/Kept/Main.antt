-- ===== src/Cli/Kept/Main.antt =====
-- What a run of the program leaves of the files when it is not told to save the key.
use govis.Prelude.{ℕ, none, List, if◌then◌else◌, Option-cases, Bool-cases, inl, inr, codes, ◌≡◌}
use govis.Big.{Big}
use govis.Curve.{Curve}
use govis.Cli.{get_arg}
use govis.Cli.Session.{Files}
use govis.Cli.Session.Laws.{Keeps, Keeps-then, Keeps-print, Keeps-done, Keeps-read_file}
use govis.Cli.World.{Libraries, World}
use govis.Cli.RunLindell.{run_lindell}
use govis.Cli.RunCggmp21.{run_cggmp21}
use govis.Cli.Main.{index_of, old_key, run_refresh_cli, main}
use govis.Cli.{Config, is_cggmp21}
use govis.Cli.Main.{sid_of}
use govis.Cli.Kept.{load_lindell-Keeps, save_lindell-Keeps, run_lindell-Keeps, run_cggmp21-Keeps}

module _ (c : Curve) (big : Big) (libs : Libraries) (fs : Files) where
  index_of-Keeps : (args : List (List ℕ)) → Keeps (index_of c big libs fs args)
  unfolding index_of
  index_of-Keeps args = elim (Option-cases (get_arg args (codes "--load-key"))) [
    | inr (path, e) ↦ rw (index_of, e) (search (Keeps-then, Keeps-done, Keeps-read_file) depth 20)
    | inl e ↦ elim (Option-cases (get_arg args (codes "--index"))) [
      | inl f ↦ rw (index_of, e, f) (Keeps-done _)
      | inr (s, f) ↦ rw (index_of, e, f) (Keeps-done _)
    ]
  ]

  old_key-Keeps : (args : List (List ℕ)) → Keeps (old_key c big libs fs args)
  unfolding old_key
  old_key-Keeps args = elim (Option-cases (get_arg args (codes "--load-key"))) [
    | inl e ↦ rw (old_key, e) (Keeps-done _)
    | inr (path, e) ↦ rw (old_key, e) (load_lindell-Keeps c big libs fs path)
  ]

  module _ {R E : Type 0} (world : World c R E) where
    run_refresh_cli-Keeps :
        (my_index n threshold : ℕ) (sid : List ℕ) (args : List (List ℕ))
        → get_arg args (codes "--save-key") ≡ none
        → Keeps (run_refresh_cli c big libs fs world my_index n threshold sid args)
    unfolding run_refresh_cli
    run_refresh_cli-Keeps my_index n threshold sid args e =
        search (Keeps-then, Keeps-done, Keeps-print, old_key-Keeps, save_lindell-Keeps) depth 40

    chosen-Keeps :
        (my_index : ℕ) (config : Config) (args : List (List ℕ))
        → get_arg args (codes "--save-key") ≡ none
        → Keeps (
            if config.refresh
            then run_refresh_cli c big libs fs world my_index config.n config.threshold
                (sid_of args)
                args
            else if is_cggmp21 config.protocol
            then run_cggmp21 c big libs fs world my_index config.n config.threshold config.signers
                (sid_of args)
                args
            else run_lindell c big libs fs world my_index config.n config.threshold config.signers
                (sid_of args)
                args)
    chosen-Keeps my_index config args g = elim (Bool-cases config.refresh) [
      | inl e ↦ rw e (run_refresh_cli-Keeps _ _ _ _ _ g)
      | inr e ↦ elim (Bool-cases (is_cggmp21 config.protocol)) [
        | inl f ↦ rw (e, f) (run_cggmp21-Keeps c big libs fs world _ _ _ _ _ _ g)
        | inr f ↦ rw (e, f) (run_lindell-Keeps c big libs fs world _ _ _ _ _ _ g)
      ]
    ]

    -- Without `--save-key` a run leaves all files as they are, however it ends.
    pub main-Keeps :
        (args : List (List ℕ)) (s : fs.State)
        → get_arg args (codes "--save-key") ≡ none
        → (main c big libs fs world args s).1 ≡ s
    unfolding main
    main-Keeps args s g = left.kept s
      where
        left : Keeps (main c big libs fs world args)
        left = search (Keeps-then, Keeps-done, index_of-Keeps, chosen-Keeps) depth 20
