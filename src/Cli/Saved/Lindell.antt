-- ===== src/Cli/Saved/Lindell.antt =====
-- A Lindell key that one run saves, after key generation or a refresh, is what the next run loads.
use govis.Prelude.{ℕ, some, List, [], ok, map_err_ok, codes, ◌≡◌, refl, sym, ◌∙◌}
use govis.Big.{Big}
use govis.Curve.{Curve}
use govis.Lindell.{LindellDkgOutput}
use govis.Lindell.KeyData.{to_key_data, from_key_data-to_key_data}
use govis.Cli.{get_arg}
use govis.Cli.Session.{Files, IsFileSystem, Line, ◌>>=◌, print, done, read_file}
use govis.Cli.Session.Laws.{Keeps, Keeps-then, Keeps-print, then_session_ok}
use govis.Cli.World.{Libraries, IsBincode, World}
use govis.Cli.RunLindell.{load_lindell, save_lindell, obtain_lindell, run_lindell}
use govis.Cli.Main.{index_of, old_key, run_refresh_cli}
use govis.Lindell.Dkg.{run_refresh}
use govis.Cli.Kept.{finish_lindell-Keeps}
use mathlib.Core.Path.{subst}
use govis.Cli.Saved.{save-read, index_of-read}

three_prints-Keeps :
    {c : Curve} {S : Type 0} (a b d : Line c)
    → Keeps {c = c} {S = S} (print a >>= λ _. print b >>= λ _. print d)
three_prints-Keeps a b d = search (Keeps-then, Keeps-print) depth 8

module _ (c : Curve) (big : Big) (libs : Libraries) (fs : Files) where
  open libs use {serialize_lindell}

  -- What a run with the arguments has as its index and its key: it reads both without an error, for a
  -- refresh too, prints nothing and changes no file.
  abbrev pub HasKey :
      {R E : Type 0}
      → World c R E
      → ℕ
      → ℕ
      → List ℕ
      → List (List ℕ)
      → ℕ
      → LindellDkgOutput c
      → fs.State
      → Type 0
  HasKey world n threshold sid args my_index output t =
      (index_of c big libs fs args t ≡ ([], t, ok my_index))
      × (obtain_lindell c big libs fs world my_index n threshold sid args t ≡ ([], t, ok output))
      × (old_key c big libs fs args t ≡ ([], t, ok output))

  module _ {R E : Type 0} (bincode : IsBincode libs) (lawful : IsFileSystem fs)
      (world' : World c R E) (n' threshold' : ℕ) (sid' : List ℕ) (args' : List (List ℕ))
      (path : List ℕ) where
    load_lindell-read :
        (bytes : List ℕ) (my_index : ℕ) (output : LindellDkgOutput c) (t : fs.State)
        → fs.read t path ≡ some bytes
        → serialize_lindell (to_key_data c output my_index) ≡ some bytes
        → load_lindell c big libs fs path t ≡ ([], t, ok output)
    unfolding load_lindell read_file done ◌>>=◌
    load_lindell-read bytes my_index output t r e =
        rw
          (
            r,
            bincode.deserialize-serialize_lindell _ bytes e,
            from_key_data-to_key_data c output my_index,
          )
          refl

    HasKey-read :
        (bytes : List ℕ) (my_index : ℕ) (output : LindellDkgOutput c) (t : fs.State)
        → get_arg args' (codes "--load-key") ≡ some path
        → fs.read t path ≡ some bytes
        → serialize_lindell (to_key_data c output my_index) ≡ some bytes
        → HasKey world' n' threshold' sid' args' my_index output t
    unfolding obtain_lindell old_key to_key_data
    HasKey-read bytes my_index output t load r e = (
      index_of-read c big libs fs args' path bytes _ t load r
          (bincode.header-serialize_lindell _ bytes e),
      rw (obtain_lindell, load) (load_lindell-read bytes my_index output t r e),
      rw (old_key, load) (load_lindell-read bytes my_index output t r e),
    )

    save_lindell-HasKey :
        (args : List (List ℕ)) (my_index : ℕ) (output : LindellDkgOutput c) (s : fs.State)
        → get_arg args (codes "--save-key") ≡ some path
        → get_arg args' (codes "--load-key") ≡ some path
        → (save_lindell c big libs fs args output my_index s).2 ≡ ok tt
        → HasKey world' n' threshold' sid' args' my_index output
            (save_lindell c big libs fs args output my_index s).1
    unfolding save_lindell
    save_lindell-HasKey args my_index output s save load h =
        let (bytes, e, r) = save-read c fs lawful _ path s (rw (save_lindell, save) at h) in
        rw (save_lindell, save) (HasKey-read bytes my_index output _ load r e)

    -- A run that is told to save the key in a file and ends well has generated or loaded a key; and any
    -- later run that is told to load that file, with the files as they are then, gets the same index and
    -- the same key from it, also to refresh it.
    pub run_lindell-HasKey :
        (world : World c R E) (my_index n threshold : ℕ) (signers sid : List ℕ)
        (args : List (List ℕ)) (s : fs.State)
        → get_arg args (codes "--save-key") ≡ some path
        → get_arg args' (codes "--load-key") ≡ some path
        → (run_lindell c big libs fs world my_index n threshold signers sid args s).2 ≡ ok tt
        → (output : LindellDkgOutput c) × ((obtain_lindell c big libs fs world my_index n threshold
              sid args s).2
            ≡ ok output)
          × HasKey world' n' threshold' sid' args' my_index output
              (run_lindell c big libs fs world my_index n threshold signers sid args s).1
    unfolding run_lindell
    run_lindell-HasKey world my_index n threshold signers sid args s save load h =
        let (output, e, rest, same) = then_session_ok _ _ s tt h in
        let (u, saved, end, same') = then_session_ok _ _ _ tt rest in
        let k = save_lindell-HasKey args my_index output _ save load saved in
        let left =
          (finish_lindell-Keeps c big libs fs world my_index n signers args output).kept _ in
        (
          output,
          e,
          subst (HasKey world' n' threshold' sid' args' my_index output) (sym (same ∙ same' ∙ left))
              k,
        )

    -- A refresh that is told to save the key and ends well has an old key and a refreshed share; a later
    -- run that loads the file gets the index, the refreshed share and the old public key.
    run_refresh_cli-HasKey :
        (world : World c R E) (my_index n threshold : ℕ) (sid : List ℕ) (args : List (List ℕ))
        (s : fs.State)
        → get_arg args (codes "--save-key") ≡ some path
        → get_arg args' (codes "--load-key") ≡ some path
        → (run_refresh_cli c big libs fs world my_index n threshold sid args s).2 ≡ ok tt
        → (old output : LindellDkgOutput c) × ((old_key c big libs fs args s).2 ≡ ok old)
          × ((run_refresh c libs.sha256 world.dkg_net my_index n threshold sid old.secret_share
                old.public_key world.dkg_draw).1
              ≡ ok output)
          × HasKey world' n' threshold' sid' args' my_index
              (record { secret_share = output.secret_share; public_key = old.public_key })
              (run_refresh_cli c big libs fs world my_index n threshold sid args s).1
    unfolding run_refresh_cli done
    run_refresh_cli-HasKey world my_index n threshold sid args s save load h =
        let (old, e, h1, s1) = then_session_ok _ _ s tt h in
        let (_, _, h2, s2) = then_session_ok _ _ _ tt h1 in
        let (output, f, h3, s3) = then_session_ok _ _ _ tt h2 in
        let (u, saved, h4, s4) = then_session_ok _ _ _ tt h3 in
        let k = save_lindell-HasKey args my_index _ _ save load saved in
        (
          old,
          output,
          e,
          map_err_ok _ _ output f,
          subst (HasKey world' n' threshold' sid' args' my_index _)
              (sym (s1 ∙ s2 ∙ s3 ∙ s4 ∙ (three_prints-Keeps _ _ _).kept _)) k,
        )
