-- ===== src/Tests/Files.antt =====
-- A file system in memory, and a serialisation with lengths, for the runs of the program.
use govis.Prelude.{
  ◌≡◌, refl, sym, ap, ◌∙◌, ℕ, ◌-◌, if◌then◌else◌, Option, none, some, some_inj, List, [], ◌∷◌, ◌++◌,
  length, take, drop, replicate,
}
use govis.Prelude.Bytes.{same_bytes, same_bytes_refl}
use govis.Lindell.KeyData.{LindellKeyData}
use govis.Cggmp21.KeyData.{Cggmp21KeyData}
use govis.Cli.Session.{Files, IsFileSystem}
use govis.Cli.World.{KeyFileHeader, Libraries, IsBincode}
use govis.Tests.Setup.{constant_hash}

-- The last write of a path comes first.
abbrev find_file : List (List ℕ × List ℕ) → List ℕ → Option (List ℕ)
find_file [] path = none
find_file ((name, bytes) ∷ files) path =
    if same_bytes name path then some bytes else find_file files path

abbrev pub memory : Files
memory = record {
  State = List (List ℕ × List ℕ);
  read = find_file;
  write = λ files path bytes. some ((path, bytes) ∷ files);
}

pub memory-IsFileSystem : IsFileSystem memory
memory-IsFileSystem = record {
  read-write = λ s t path bytes e.
      ap (λ files. find_file files path) (sym (some_inj e))
      ∙ ap (λ same. if same then some bytes else find_file s path) (same_bytes_refl path);
}

take-append : (xs ys : List ℕ) → take (length xs) (xs ++ ys) ≡ xs
take-append [] ys = refl
take-append (x ∷ xs) ys = ap (λ l. x ∷ l) (take-append xs ys)

drop-append : (xs ys : List ℕ) → drop (length xs) (xs ++ ys) ≡ ys
drop-append [] ys = refl
drop-append (x ∷ xs) ys = drop-append xs ys

-- The name of the protocol, the index, the share and the key.
abbrev pub encode_key : List ℕ → ℕ → List ℕ → List ℕ → List ℕ
encode_key protocol party_index share public_key =
    length protocol ∷ (protocol ++ (party_index ∷ length share ∷ (share ++ public_key)))

abbrev decode_rest : List ℕ → List ℕ → Option (List ℕ × ℕ × List ℕ × List ℕ)
decode_rest protocol (party_index ∷ size ∷ rest) =
    some (protocol, party_index, take size rest, drop size rest)
decode_rest protocol rest = none

abbrev decode_key : List ℕ → Option (List ℕ × ℕ × List ℕ × List ℕ)
decode_key [] = none
decode_key (size ∷ rest) = decode_rest (take size rest) (drop size rest)

decode_key-encode_key :
    (protocol : List ℕ) (party_index : ℕ) (share public_key : List ℕ)
    → decode_key (encode_key protocol party_index share public_key)
      ≡ some (protocol, party_index, share, public_key)
decode_key-encode_key protocol party_index share public_key =
    ap (λ l. decode_rest l (drop (length protocol) (protocol ++ tail))) (take-append protocol tail)
    ∙ ap (decode_rest protocol) (drop-append protocol tail)
    ∙ ap (λ l. some (protocol, party_index, l, drop (length share) (share ++ public_key)))
        (take-append share public_key)
    ∙ ap (λ l. some (protocol, party_index, share, l)) (drop-append share public_key)
  where
    tail : List ℕ
    tail = party_index ∷ length share ∷ (share ++ public_key)

abbrev Stored : Type 0
Stored = List ℕ × ℕ × List ℕ × List ℕ

abbrev as_header : Option Stored → Option KeyFileHeader
as_header none = none
as_header (some (protocol, party_index, share, key)) =
    some (record { protocol = protocol; party_index = party_index })

abbrev as_lindell : Option Stored → Option LindellKeyData
as_lindell none = none
as_lindell (some (protocol, party_index, share, key)) = some (record {
  protocol = protocol;
  party_index = party_index;
  secret_share = share;
  public_key = key;
})

abbrev as_cggmp21 : Option Stored → Option Cggmp21KeyData
as_cggmp21 none = none
as_cggmp21 (some (protocol, party_index, share, key)) =
    some (record {
      protocol = protocol;
      party_index = party_index;
      ec_share = share;
      public_key = key;
    })

-- Every hexadecimal text stands for the same 32 bytes.
abbrev pub toy_libraries : Libraries
toy_libraries = record {
  SocketAddr = List ℕ;
  parse_u16 = λ s. elim s [ [] ↦ none | ch ∷ _ ↦ some (ch - 48) ];
  parse_usize = λ s. none;
  parse_addr = λ s. some s;
  hex_decode = λ s. some (replicate 31 0 ++ (1 ∷ []));
  sha256 = constant_hash;
  serialize_lindell = λ d. some (encode_key d.protocol d.party_index d.secret_share d.public_key);
  serialize_cggmp21 = λ d. some (encode_key d.protocol d.party_index d.ec_share d.public_key);
  deserialize_header = λ bytes. as_header (decode_key bytes);
  deserialize_lindell = λ bytes. as_lindell (decode_key bytes);
  deserialize_cggmp21 = λ bytes. as_cggmp21 (decode_key bytes);
}

pub toy_libraries-IsBincode : IsBincode toy_libraries
toy_libraries-IsBincode = record {
  deserialize-serialize_lindell = λ d bytes e.
      ap (λ l. as_lindell (decode_key l)) (sym (some_inj e))
      ∙ ap as_lindell (decode_key-encode_key d.protocol d.party_index d.secret_share d.public_key);
  header-serialize_lindell = λ d bytes e.
      ap (λ l. as_header (decode_key l)) (sym (some_inj e))
      ∙ ap as_header (decode_key-encode_key d.protocol d.party_index d.secret_share d.public_key);
  deserialize-serialize_cggmp21 = λ d bytes e.
      ap (λ l. as_cggmp21 (decode_key l)) (sym (some_inj e))
      ∙ ap as_cggmp21 (decode_key-encode_key d.protocol d.party_index d.ec_share d.public_key);
  header-serialize_cggmp21 = λ d bytes e.
      ap (λ l. as_header (decode_key l)) (sym (some_inj e))
      ∙ ap as_header (decode_key-encode_key d.protocol d.party_index d.ec_share d.public_key);
}
