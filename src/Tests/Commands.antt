-- ===== src/Tests/Commands.antt =====
-- A party that loads its key from a file, saves it in another, and waits for a signature of others.
use govis.Prelude.{
  ◌≡◌, refl, ℕ, none, List, [], ◌∷◌, ok, err, Outcome, codes, slice?, All, true, ◌++◌,
}
use govis.Big.{toy_big}
use govis.Curve.Toy.{toy, n0, n1, n2, n3, bytes5, F5-discrete}
use govis.Vss.{lagrange_coeff, lagrange_loop, point_x_coord}
use govis.Ecdsa.{verify_signature, ethereum_signature, bitcoin_der_signature, encode_int, trim}
use govis.Lindell.{LindellDkgOutput}
use govis.Lindell.KeyData.{from_key_data}
use govis.Lindell.Sign.{find_from}
use govis.Lindell.Sign.Rounds.{
  run_sign, sign_round1, sign_round2, sign_round3_other, check_signature,
}
use govis.Cli.{
  configure, get_arg, position, threshold_of, signers_of, paillier_bits_of, protocol_of, is_lindell,
  is_cggmp21, all_below, split_commas, resolve_digest,
}
use govis.Cli.Session.{
  Line, Stop, ◌>>=◌, done, print, read_file, write_file, signature_header, r_line, s_line,
  rec_id_line, verify_line, ethereum_line, ethereum_eip155_line, bitcoin_line,
}
use govis.Cli.World.{World}
use govis.Cli.Output.{print_signature}
use govis.Cli.RunLindell.{
  load_lindell, save_lindell, obtain_lindell, sign_lindell, sign_found_lindell, finish_lindell,
  run_lindell,
}
use govis.Cli.Main.{
  index_of, addrs_of, parse_addrs, address_texts, args_from, starts_dashes, sid_of, main,
}
use govis.Cli.Printed.{Verified}
use govis.Cli.Printed.Main.{main-Verified}
use govis.Cli.Kept.Main.{main-Keeps}
use govis.Cli.Saved.Lindell.{HasKey, run_lindell-HasKey}
use govis.Tests.Setup.{public_77, private_77}
use govis.Tests.TwoParty.{third_network, no_draws1, no_draws2}
use govis.Tests.Presigning.{drawn, presign_network, sign_network}
use govis.Tests.Keygen.{dealt}
use govis.Tests.Files.{
  memory, memory-IsFileSystem, toy_libraries, toy_libraries-IsBincode, encode_key,
}

-- Only the rounds of a Lindell signing and of a CGGMP21 signing come to something.
abbrev pub world : World toy ℕ ℕ
world = record {
  connection = err 1;
  reconnection = ok tt;
  sign_reconnection = ok tt;
  dkg_net = record {
    on_send = λ m. none;
    on_flush = none;
    commitments_hashes = err 2;
    reveals = err 2;
    shares = err 2;
  };
  dkg_secret = n0;
  dkg_draw = λ k. n0;
  sign_net = third_network;
  p1_draws = no_draws1;
  p2_draws = no_draws2;
  keygen_net = record {
    on_send = λ m. none;
    round1_msgs = err 2;
    round2_msgs = err 2;
    round3_msgs = err 2;
  };
  keygen_draws = dealt 0;
  loaded_kp = record { pk = public_77; sk = private_77 };
  presign_net = presign_network;
  presign_draws = drawn 0;
  online_net = sign_network;
}

abbrev key_files : List (List ℕ × List ℕ)
key_files = (codes "k", encode_key (codes "lindell") 2 (bytes5 n2) (toy.point_bytes true n3)) ∷ []

abbrev sign_args : List (List ℕ)
sign_args =
    codes "--load-key"
    ∷ codes "k"
    ∷ codes "--addrs"
    ∷ codes "x,y,z"
    ∷ codes "--sign"
    ∷ codes "01"
    ∷ []

-- The party prints the signature that the others have made, and that it is valid.
sign_run : main toy toy_big toy_libraries memory world sign_args key_files ≡ (
  signature_header 2
      ∷ r_line (bytes5 n2)
      ∷ s_line (bytes5 n1)
      ∷ rec_id_line 0
      ∷ verify_line true
      ∷ ethereum_line (bytes5 n2 ++ (bytes5 n1 ++ (27 ∷ [])))
      ∷ ethereum_eip155_line (bytes5 n2 ++ (bytes5 n1 ++ (37 ∷ [])))
      ∷ bitcoin_line (48 ∷ 6 ∷ 2 ∷ 1 ∷ 2 ∷ 2 ∷ 1 ∷ 1 ∷ [])
      ∷ [],
  key_files,
  ok tt,
)
unfolding main index_of addrs_of parse_addrs address_texts args_from starts_dashes sid_of get_arg
    position configure threshold_of signers_of paillier_bits_of protocol_of is_lindell is_cggmp21
    all_below split_commas resolve_digest run_lindell obtain_lindell load_lindell save_lindell
    finish_lindell sign_found_lindell sign_lindell from_key_data run_sign sign_round1 sign_round2
    sign_round3_other check_signature find_from lagrange_coeff lagrange_loop verify_signature
    point_x_coord slice? F5-discrete print_signature ethereum_signature bitcoin_der_signature
    encode_int trim done print read_file write_file ◌>>=◌ mathlib.Core.Option.bind
sign_run = refl

main-Verified_example :
    All Verified (main toy toy_big toy_libraries memory world sign_args key_files).0
main-Verified_example = main-Verified toy toy_big toy_libraries memory world sign_args key_files

main-Keeps_example : (main toy toy_big toy_libraries memory world sign_args key_files).1 ≡ key_files
main-Keeps_example =
    main-Keeps toy toy_big toy_libraries memory world sign_args key_files
      (unfold get_arg position in refl)

-- The same, with the key saved in a file, which the next run loads.
abbrev save_args : List (List ℕ)
save_args = codes "--save-key" ∷ codes "s" ∷ sign_args

abbrev next_args : List (List ℕ)
next_args = codes "--load-key" ∷ codes "s" ∷ []

abbrev saving_run : List (Line toy) × List (List ℕ × List ℕ) × Outcome Stop (Unit {0})
saving_run =
    run_lindell toy toy_big toy_libraries memory world 2 3 2 (0 ∷ 1 ∷ []) (codes "dkg-session")
      save_args key_files

saving_run_ends : saving_run.2 ≡ ok tt
unfolding get_arg position configure threshold_of signers_of paillier_bits_of protocol_of is_lindell
    is_cggmp21 all_below split_commas resolve_digest run_lindell obtain_lindell load_lindell
    save_lindell finish_lindell sign_found_lindell sign_lindell from_key_data run_sign sign_round1
    sign_round2 sign_round3_other check_signature find_from lagrange_coeff lagrange_loop
    verify_signature point_x_coord slice? F5-discrete print_signature ethereum_signature
    bitcoin_der_signature encode_int trim done print read_file write_file ◌>>=◌
    mathlib.Core.Option.bind
saving_run_ends = refl

run_lindell-HasKey_example :
    (output : LindellDkgOutput toy) × ((obtain_lindell toy toy_big toy_libraries memory world 2 3 2
        (codes "dkg-session")
        save_args
        key_files).2
      ≡ ok output)
    × HasKey toy toy_big toy_libraries memory world 3 2
        (codes "dkg-session")
        next_args
        2
        output
        saving_run.1
run_lindell-HasKey_example =
    run_lindell-HasKey toy toy_big toy_libraries memory toy_libraries-IsBincode memory-IsFileSystem
      world 3 2 (codes "dkg-session") next_args (codes "s") world 2 3 2 (0 ∷ 1 ∷ [])
      (codes "dkg-session") save_args key_files (unfold get_arg position in refl)
      (unfold get_arg position in refl) saving_run_ends
