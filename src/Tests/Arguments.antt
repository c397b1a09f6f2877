-- ===== src/Tests/Arguments.antt =====
-- A command line that names the signers.
use govis.Prelude.{◌≡◌, refl, ℕ, ◌-◌, Option, none, some, List, [], ◌∷◌, ok, codes, false, Yields}
use govis.Cli.{
  configure, get_arg, position, threshold_of, signers_of, paillier_bits_of, protocol_of,
  split_commas, is_lindell, is_cggmp21, parse_all, all_below,
}
use govis.Cli.Accepted.{Checked, configure_ok}

-- Numbers of one digit.
abbrev parse_digit : List ℕ → Option ℕ
parse_digit (ch ∷ []) = some (ch - 48)
parse_digit s = none

abbrev named_signers : List (List ℕ)
named_signers =
    codes "--protocol"
    ∷ codes "cggmp21"
    ∷ codes "--threshold"
    ∷ codes "3"
    ∷ codes "--signers"
    ∷ codes "0,2,3"
    ∷ []

configure_ok_example : Yields (Checked 4) (configure parse_digit parse_digit named_signers 4)
configure_ok_example = configure_ok parse_digit parse_digit named_signers 4

named_signers_run :
    configure parse_digit parse_digit named_signers 4
    ≡ ok (record {
      protocol = codes "cggmp21";
      n = 4;
      threshold = 3;
      signers = 0 ∷ 2 ∷ 3 ∷ [];
      refresh = false;
      paillier_bits = none;
    })
unfolding configure get_arg position threshold_of signers_of paillier_bits_of protocol_of
    split_commas is_lindell is_cggmp21 parse_all all_below
named_signers_run = refl

abbrev no_threshold : List (List ℕ)
no_threshold = codes "--protocol" ∷ codes "cggmp21" ∷ codes "--threshold" ∷ codes "0" ∷ []

-- 65536 addresses are no party at all.
no_threshold_run :
    configure parse_digit parse_digit no_threshold 65536
    ≡ ok (record {
      protocol = codes "cggmp21";
      n = 0;
      threshold = 0;
      signers = [];
      refresh = false;
      paillier_bits = none;
    })
unfolding configure get_arg position threshold_of signers_of paillier_bits_of protocol_of
    split_commas is_lindell is_cggmp21 parse_all all_below
no_threshold_run = refl
