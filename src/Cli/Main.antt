-- ===== src/Cli/Main.antt =====
-- src/main.rs: the key refresh, and `main`, which chooses what is run.
use govis.Prelude.{
  ℕ, zero, suc, ◌==◌, if◌then◌else◌, Option, none, some, List, [], ◌∷◌, ◌++◌, length, codes, Bool,
  true, false, ◌&&◌, Outcome, ok, expect, ok_or, map_err,
}
use govis.Prelude.{◌>>=◌ as ◌and_then◌}
use govis.Big.{Big}
use govis.Curve.{Curve}
use govis.Lindell.{LindellDkgOutput}
use govis.Lindell.Dkg.{run_refresh}
use govis.Cli.{get_arg, position, split_commas, is_cggmp21, configure}
use govis.Cli.Session.{
  Files, Session, ◌>>=◌, ◌>>◌, done, or_exit, print, read_file, unreadable_key_file, not_a_key_file,
  usage, connection_failed, refresh_failed, bad_arguments, refresh_header, new_share_line,
  master_key_line, Stop,
}
use govis.Cli.World.{Libraries, World}
use govis.Cli.RunLindell.{load_lindell, save_lindell, run_lindell}
use govis.Cli.RunCggmp21.{run_cggmp21}
use mathlib.Core.Option

-- `a.starts_with("--")`.
unfoldable pub starts_dashes : List ℕ → Bool
starts_dashes [] = false
starts_dashes (a ∷ []) = false
starts_dashes (a ∷ b ∷ rest) = a == 45 && b == 45

-- `iter().take_while(|a| !a.starts_with("--")).flat_map(|s| s.split(','))`.
unfoldable pub address_texts : List (List ℕ) → List (List ℕ)
address_texts [] = []
address_texts (a ∷ args) =
    let rest = address_texts args in if starts_dashes a then [] else split_commas [] a ++ rest

-- `args[k..]`.
unfoldable pub args_from : ℕ → List (List ℕ) → List (List ℕ)
args_from zero args = args
args_from (suc k) [] = []
args_from (suc k) (a ∷ args) = args_from k args

module _ (libs : Libraries) where
  open libs use {SocketAddr, parse_addr}

  -- A panic at the first text that is no address.
  unfoldable pub parse_addrs : List (List ℕ) → Option (List SocketAddr)
  parse_addrs [] = some []
  parse_addrs (text ∷ texts) =
      let rest = parse_addrs texts in
      Option.bind (parse_addr text) (λ addr. Option.map (λ addrs. addr ∷ addrs) rest)

  unfoldable pub addrs_of : List (List ℕ) → Outcome Stop (List SocketAddr)
  addrs_of args = expect (position (codes "--addrs") args) and_then λ addrs_pos.
      expect (parse_addrs (address_texts (args_from (suc addrs_pos) args)))

unfoldable pub sid_of : List (List ℕ) → List ℕ
sid_of args = elim (get_arg args (codes "--sid")) [ some sid ↦ sid | none ↦ codes "dkg-session" ]

module _ (c : Curve) (big : Big) (libs : Libraries) (fs : Files) where
  open libs use {parse_u16, parse_usize, hex_decode, sha256, deserialize_header}

  -- From the key file, or from `--index`.
  unfoldable pub index_of : List (List ℕ) → Session c fs.State ℕ
  index_of args = elim (get_arg args (codes "--load-key")) [
    | some path ↦ read_file fs unreadable_key_file path >>= λ bytes.
        done (ok_or not_a_key_file (deserialize_header bytes)) >>= λ header.
        done (ok header.party_index)
    | none ↦ elim (get_arg args (codes "--index")) [
      | some s ↦ done (expect (parse_u16 s))
      | none ↦ done (Outcome.err usage)
    ]
  ]

  -- `--old-share` and `--master-pk`; every failure is a panic.
  unfoldable pub key_of_arguments : List (List ℕ) → Option (LindellDkgOutput c)
  key_of_arguments args = Option.bind (get_arg args (codes "--old-share")) λ old_share_hex.
      Option.bind (get_arg args (codes "--master-pk")) λ master_pk_hex.
        Option.bind (hex_decode old_share_hex) λ old_share_bytes.
          Option.bind (hex_decode master_pk_hex) λ master_pk_bytes.
            Option.map
              (λ master_pk. record {
                secret_share = c.from_be_bytes_mod_order old_share_bytes;
                public_key = master_pk;
              })
              (c.point_from_bytes master_pk_bytes)

  unfoldable pub old_key : List (List ℕ) → Session c fs.State (LindellDkgOutput c)
  old_key args = elim (get_arg args (codes "--load-key")) [
    | some path ↦ load_lindell c big libs fs path
    | none ↦ done (expect (key_of_arguments args))
  ]

  module _ {R E : Type 0} (world : World c R E) where
    unfoldable pub run_refresh_cli :
        ℕ → ℕ → ℕ → List ℕ → List (List ℕ) → Session c fs.State (Unit {0})
    run_refresh_cli my_index n threshold sid args = do
      old ← old_key args
      _ ← or_exit connection_failed world.connection
      output ←
          or_exit refresh_failed
            (run_refresh c sha256 world.dkg_net my_index n threshold sid old.secret_share
              old.public_key world.dkg_draw).1
      save_lindell c big libs fs args
          (record { secret_share = output.secret_share; public_key = old.public_key }) my_index
      print (refresh_header my_index)
      print (new_share_line (c.to_be_bytes output.secret_share))
      print (master_key_line (c.point_bytes true old.public_key))

    unfoldable pub main : List (List ℕ) → Session c fs.State (Unit {0})
    main args = do
      my_index ← index_of args
      addrs ← done (addrs_of libs args)
      config ← done (map_err bad_arguments (configure parse_u16 parse_usize args (length addrs)))
      if config.refresh
          then run_refresh_cli my_index config.n config.threshold (sid_of args) args
          else if is_cggmp21 config.protocol
          then run_cggmp21 c big libs fs world my_index config.n config.threshold config.signers
              (sid_of args) args
          else run_lindell c big libs fs world my_index config.n config.threshold config.signers
              (sid_of args) args
