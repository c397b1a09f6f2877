-- ===== src/Cli.antt =====
-- src/main.rs: the arguments of the program, and the checks made of them before a protocol runs.
pub mod Accepted
pub mod Session
pub mod World
pub mod Output
pub mod RunLindell
pub mod RunCggmp21
pub mod Main
pub mod Printed
pub mod Kept
pub mod Saved
pub mod Signed
use govis.Prelude.{
  ℕ, zero, suc, ◌+◌, ◌*◌, ◌/◌, ◌%◌, ◌^◌, ltb, leb, ◌==◌, if◌then◌else◌, Option, none, some, List,
  [], ◌∷◌, ◌++◌, length, range_from, get_elem?, codes, Outcome, ok, err, panic, expect, ensure,
  Bool, true, false, ◌&&◌, ◌||◌, not,
}
use govis.Prelude.{◌>>=◌ as ◌and_then◌}
use govis.Prelude.Maybe.{◌>>=◌}
use govis.Prelude.Bytes.{same_bytes}
use mathlib.Core.Option

-- `args.iter().position(|a| a == name)`.
unfoldable pub position : List ℕ → List (List ℕ) → Option ℕ
position name [] = none
position name (a ∷ args) = if same_bytes a name then some 0 else Option.map suc (position name args)

-- The argument after the first one that is `name`.
unfoldable pub get_arg : List (List ℕ) → List ℕ → Option (List ℕ)
get_arg args name = do i ← position name args; get_elem? args (i + 1)

-- `s.split(',')`, with the piece read so far.
unfoldable pub split_commas : List ℕ → List ℕ → List (List ℕ)
split_commas piece [] = piece ∷ []
split_commas piece (ch ∷ s) =
    let next = split_commas (piece ++ (ch ∷ [])) s in
    let after = split_commas [] s in if ch == 44 then piece ∷ after else next

pub data Exit : Type 0 where
  no_addresses lindell_threshold too_few_signers threshold_exceeds_parties signer_out_of_range :
      Exit
  refresh_unsupported : Exit

-- The error exits of the digest's arguments.
pub data DigestExit : Type 0 where
  wrong_length unreadable_file : DigestExit

-- What `main` runs, with the values that it passes on.
pub record Config : Type 0 where
  pub protocol : List ℕ
  pub n : ℕ
  pub threshold : ℕ
  pub signers : List ℕ
  pub refresh : Bool
  pub paillier_bits : Option ℕ

unfoldable pub is_lindell : List ℕ → Bool
is_lindell protocol = same_bytes protocol (codes "lindell")

unfoldable pub is_cggmp21 : List ℕ → Bool
is_cggmp21 protocol = same_bytes protocol (codes "cggmp21")

unfoldable pub protocol_of : List (List ℕ) → List ℕ
protocol_of args = elim (get_arg args (codes "--protocol")) [ some p ↦ p | none ↦ codes "lindell" ]

-- `2 * ((n - 1) / 3) + 1` on `u16`.
unfoldable pub default_threshold : ℕ → ℕ
default_threshold n = (2 * ((n + 65535) % 2 ^ 16 / 3) + 1) % 2 ^ 16

unfoldable pub all_below : ℕ → List ℕ → Bool
all_below n [] = true
all_below n (s ∷ signers) = ltb s n && all_below n signers

-- `str::parse` to `u16` and to `usize`, by the standard library.
module _ (parse_u16 parse_usize : List ℕ → Option ℕ) where
  unfoldable pub threshold_of : List (List ℕ) → List ℕ → ℕ → Outcome Exit ℕ
  threshold_of args protocol n = elim (get_arg args (codes "--threshold")) [
    | some s ↦ expect (parse_u16 s) and_then λ t.
        ensure (not (is_lindell protocol) || t == 2) lindell_threshold and_then λ _. ok t
    | none ↦ ok (if is_lindell protocol then 2 else default_threshold n)
  ]

  -- `expect` at the first piece that is no number.
  unfoldable pub parse_all : List (List ℕ) → Option (List ℕ)
  parse_all [] = some []
  parse_all (s ∷ pieces) = do x ← parse_u16 s; rest ← parse_all pieces; some (x ∷ rest)

  unfoldable pub signers_of : List (List ℕ) → List ℕ → ℕ → Outcome Exit (List ℕ)
  signers_of args protocol threshold = elim (get_arg args (codes "--signers")) [
    | some s ↦ expect (parse_all (split_commas [] s))
    | none ↦ ok (if is_lindell protocol then 0 ∷ 1 ∷ [] else range_from 0 threshold)
  ]

  -- `--paillier-bits`, which panics if it is no number.
  unfoldable pub paillier_bits_of : List (List ℕ) → Outcome Exit (Option ℕ)
  paillier_bits_of args = elim (get_arg args (codes "--paillier-bits")) [
    | some s ↦ expect (parse_usize s) and_then λ bits. ok (some bits)
    | none ↦ ok none
  ]

  -- From the number of addresses, `count`, to what is run.
  unfoldable pub configure : List (List ℕ) → ℕ → Outcome Exit Config
  configure args count =
      let refresh : Bool = elim (get_arg args (codes "--refresh")) [
        | some _ ↦ true
        | none ↦ false
      ] in
      let n = count % 2 ^ 16 in
      let protocol = protocol_of args in
      ensure (not (count == 0)) no_addresses and_then λ _.
      threshold_of args protocol n and_then λ threshold.
      paillier_bits_of args and_then λ paillier_bits.
      signers_of args protocol threshold and_then λ signers.
      ensure (not (is_cggmp21 protocol && ltb (length signers) threshold)) too_few_signers
      and_then λ _. ensure (leb threshold n) threshold_exceeds_parties and_then λ _.
          ensure (all_below n signers) signer_out_of_range and_then λ _.
          ensure (not (refresh && is_cggmp21 protocol)) refresh_unsupported and_then λ _.
          ok (record {
            protocol = protocol;
            n = n;
            threshold = threshold;
            signers = signers;
            refresh = refresh;
            paillier_bits = paillier_bits;
          })

-- The digest to sign: the bytes of `--sign`, the hash of the file of `--file`, or none. The decoding of
-- hexadecimal, the file system and SHA-256 are arguments.
module _ (hex_decode read_file : List ℕ → Option (List ℕ)) (sha256 : List ℕ → List ℕ) where
  unfoldable pub resolve_digest : List (List ℕ) → Outcome DigestExit (Option (List ℕ))
  resolve_digest args = elim (get_arg args (codes "--sign")) [
    | some hex_str ↦ expect (hex_decode hex_str) and_then λ bytes.
        ensure (length bytes == 32) wrong_length and_then λ _. ok (some bytes)
    | none ↦ elim (get_arg args (codes "--file")) [
      | some path ↦ elim (read_file path) [
        | some bytes ↦ ok (some (sha256 bytes))
        | none ↦ err unreadable_file
      ]
      | none ↦ ok none
    ]
  ]
