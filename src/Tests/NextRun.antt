-- ===== src/Tests/NextRun.antt =====
-- A CGGMP21 party that loads its key from one file and saves it in another.
use govis.Prelude.{◌≡◌, refl, ℕ, List, [], ◌∷◌, ok, Outcome, codes, true}
use govis.Big.{toy_big}
use govis.Curve.Toy.{toy, n2, n3, bytes5}
use govis.Cggmp21.KeyData.{Cggmp21KeygenOutput, to_key_data, from_key_data}
use govis.Cli.{get_arg, position, resolve_digest}
use govis.Cli.Session.{Line, Stop, ◌>>=◌, done, read_file, write_file}
use govis.Cli.RunCggmp21.{
  load_cggmp21, save_cggmp21, obtain_cggmp21, sign_found_cggmp21, finish_cggmp21, run_cggmp21,
}
use govis.Cli.Saved.Cggmp21.{HasKey, run_cggmp21-HasKey}
use govis.Tests.Commands.{world}
use govis.Tests.Files.{
  memory, memory-IsFileSystem, toy_libraries, toy_libraries-IsBincode, encode_key,
}

abbrev key_files : List (List ℕ × List ℕ)
key_files = (codes "k", encode_key (codes "cggmp21") 1 (bytes5 n2) (toy.point_bytes true n3)) ∷ []

abbrev copy_args : List (List ℕ)
copy_args = codes "--save-key" ∷ codes "s" ∷ codes "--load-key" ∷ codes "k" ∷ []

abbrev next_args : List (List ℕ)
next_args = codes "--load-key" ∷ codes "s" ∷ []

abbrev copying_run : List (Line toy) × List (List ℕ × List ℕ) × Outcome Stop (Unit {0})
copying_run =
    run_cggmp21 toy toy_big toy_libraries memory world 1 3 2 (0 ∷ 1 ∷ []) (codes "dkg-session")
      copy_args key_files

copying_run_ends : copying_run.2 ≡ ok tt
unfolding get_arg position resolve_digest run_cggmp21 obtain_cggmp21 load_cggmp21 save_cggmp21
    finish_cggmp21 sign_found_cggmp21 from_key_data to_key_data done read_file write_file ◌>>=◌
copying_run_ends = refl

run_cggmp21-HasKey_example :
    (output : Cggmp21KeygenOutput toy) × ((obtain_cggmp21 toy toy_big toy_libraries memory world 1 3
        2
        (codes "dkg-session")
        copy_args
        key_files).2
      ≡ ok output)
    × HasKey toy toy_big toy_libraries memory world 3 2
        (codes "dkg-session")
        next_args
        1
        output
        copying_run.1
run_cggmp21-HasKey_example =
    run_cggmp21-HasKey toy toy_big toy_libraries memory toy_libraries-IsBincode memory-IsFileSystem
      world 3 2 (codes "dkg-session") next_args (codes "s") world 1 3 2 (0 ∷ 1 ∷ [])
      (codes "dkg-session") copy_args key_files (unfold get_arg position in refl)
      (unfold get_arg position in refl) copying_run_ends
