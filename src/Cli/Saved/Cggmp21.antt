-- ===== src/Cli/Saved/Cggmp21.antt =====
-- A CGGMP21 key that one run saves is what the next run loads, with fresh Paillier keys.
use govis.Prelude.{ℕ, some, List, [], ok, codes, ◌≡◌, refl, sym, ◌∙◌}
use govis.Big.{Big}
use govis.Curve.{Curve}
use govis.Cggmp21.KeyData.{Cggmp21KeygenOutput, to_key_data, from_key_data-to_key_data_fresh}
use govis.Paillier.{PaillierKeypair}
use govis.Cli.{get_arg}
use govis.Cli.Session.{Files, IsFileSystem, ◌>>=◌, done, read_file}
use govis.Cli.Session.Laws.{then_session_ok}
use govis.Cli.World.{Libraries, IsBincode, World}
use govis.Cli.RunCggmp21.{load_cggmp21, save_cggmp21, obtain_cggmp21, run_cggmp21}
use govis.Cli.Main.{index_of}
use govis.Cli.Kept.{finish_cggmp21-Keeps}
use mathlib.Core.Path.{subst}
use govis.Cli.Saved.{save-read, index_of-read}

module _ (c : Curve) where
  -- The key that `from_key_data` makes of the data of an output.
  abbrev pub reloaded : PaillierKeypair → Cggmp21KeygenOutput c → Cggmp21KeygenOutput c
  reloaded kp output = record {
    ec_share = output.ec_share;
    public_key = output.public_key;
    paillier_sk = kp.sk;
    paillier_pk = kp.pk;
    peer_paillier_pks = [];
  }

module _ (c : Curve) (big : Big) (libs : Libraries) (fs : Files) where
  open libs use {serialize_cggmp21}

  -- What a run with the arguments has as its index and its key: it reads both without an error,
  -- prints nothing and changes no file.
  abbrev pub HasKey :
      {R E : Type 0}
      → World c R E
      → ℕ
      → ℕ
      → List ℕ
      → List (List ℕ)
      → ℕ
      → Cggmp21KeygenOutput c
      → fs.State
      → Type 0
  HasKey world n threshold sid args my_index output t =
      (index_of c big libs fs args t ≡ ([], t, ok my_index))
      × (obtain_cggmp21 c big libs fs world my_index n threshold sid args t
          ≡ ([], t, ok (reloaded c world.loaded_kp output)))

  module _ {R E : Type 0} (bincode : IsBincode libs) (lawful : IsFileSystem fs)
      (world' : World c R E) (n' threshold' : ℕ) (sid' : List ℕ) (args' : List (List ℕ))
      (path : List ℕ) where
    load_cggmp21-read :
        (bytes : List ℕ) (my_index : ℕ) (output : Cggmp21KeygenOutput c) (t : fs.State)
        → fs.read t path ≡ some bytes
        → serialize_cggmp21 (to_key_data c output my_index) ≡ some bytes
        → load_cggmp21 c big libs fs world' path t
          ≡ ([], t, ok (reloaded c world'.loaded_kp output))
    unfolding load_cggmp21 read_file done ◌>>=◌
    load_cggmp21-read bytes my_index output t r e =
        rw
          (
            r,
            bincode.deserialize-serialize_cggmp21 _ bytes e,
            from_key_data-to_key_data_fresh c output my_index world'.loaded_kp,
          )
          refl

    HasKey-read :
        (bytes : List ℕ) (my_index : ℕ) (output : Cggmp21KeygenOutput c) (t : fs.State)
        → get_arg args' (codes "--load-key") ≡ some path
        → fs.read t path ≡ some bytes
        → serialize_cggmp21 (to_key_data c output my_index) ≡ some bytes
        → HasKey world' n' threshold' sid' args' my_index output t
    unfolding obtain_cggmp21 to_key_data
    HasKey-read bytes my_index output t load r e = (
      index_of-read c big libs fs args' path bytes _ t load r
          (bincode.header-serialize_cggmp21 _ bytes e),
      rw (obtain_cggmp21, load) (load_cggmp21-read bytes my_index output t r e),
    )

    save_cggmp21-HasKey :
        (args : List (List ℕ)) (my_index : ℕ) (output : Cggmp21KeygenOutput c) (s : fs.State)
        → get_arg args (codes "--save-key") ≡ some path
        → get_arg args' (codes "--load-key") ≡ some path
        → (save_cggmp21 c big libs fs args output my_index s).2 ≡ ok tt
        → HasKey world' n' threshold' sid' args' my_index output
            (save_cggmp21 c big libs fs args output my_index s).1
    unfolding save_cggmp21
    save_cggmp21-HasKey args my_index output s save load h =
        let (bytes, e, r) = save-read c fs lawful _ path s (rw (save_cggmp21, save) at h) in
        rw (save_cggmp21, save) (HasKey-read bytes my_index output _ load r e)

    -- A run that is told to save the key in a file and ends well has generated or loaded a key; and any
    -- later run that is told to load that file, with the files as they are then, gets the same index and
    -- the same share and public key from it, with freshly generated Paillier keys
    -- and none of the other parties.
    pub run_cggmp21-HasKey :
        (world : World c R E) (my_index n threshold : ℕ) (signers sid : List ℕ)
        (args : List (List ℕ)) (s : fs.State)
        → get_arg args (codes "--save-key") ≡ some path
        → get_arg args' (codes "--load-key") ≡ some path
        → (run_cggmp21 c big libs fs world my_index n threshold signers sid args s).2 ≡ ok tt
        → (output : Cggmp21KeygenOutput c) × ((obtain_cggmp21 c big libs fs world my_index n
              threshold sid args s).2
            ≡ ok output)
          × HasKey world' n' threshold' sid' args' my_index output
              (run_cggmp21 c big libs fs world my_index n threshold signers sid args s).1
    unfolding run_cggmp21
    run_cggmp21-HasKey world my_index n threshold signers sid args s save load h =
        let (output, e, rest, same) = then_session_ok _ _ s tt h in
        let (u, saved, end, same') = then_session_ok _ _ _ tt rest in
        let k = save_cggmp21-HasKey args my_index output _ save load saved in
        let left = (finish_cggmp21-Keeps c big libs fs world my_index signers args output).kept _ in
        (
          output,
          e,
          subst (HasKey world' n' threshold' sid' args' my_index output) (sym (same ∙ same' ∙ left))
              k,
        )
