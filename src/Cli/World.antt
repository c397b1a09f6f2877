-- ===== src/Cli/World.antt =====
-- What the commands of src/main.rs are given: the libraries that they call, and, for one run, what the
-- connections, the network and the random numbers come to.
use govis.Prelude.{ℕ, Option, some, List, Outcome, ◌≡◌}
use govis.Curve.{Curve}
use govis.Paillier.{PaillierKeypair}
use govis.Lindell.KeyData.{LindellKeyData}
use govis.Cggmp21.KeyData.{Cggmp21KeyData}
use govis.Lindell.Dkg
use govis.Lindell.Sign
use govis.Cggmp21.Keygen
use govis.Cggmp21.Presign
use govis.Cggmp21.OnlineSign

-- src/main.rs
pub record KeyFileHeader : Type 0 where
  pub protocol : List ℕ
  pub party_index : ℕ

-- `str::parse`, `hex::decode`, SHA-256, and bincode for the three types that are stored.
pub record Libraries : Type 1 where
  pub SocketAddr : Type 0
  pub parse_u16 : List ℕ → Option ℕ
  pub parse_usize : List ℕ → Option ℕ
  pub parse_addr : List ℕ → Option SocketAddr
  pub hex_decode : List ℕ → Option (List ℕ)
  pub sha256 : List ℕ → List ℕ
  pub serialize_lindell : LindellKeyData → Option (List ℕ)
  pub serialize_cggmp21 : Cggmp21KeyData → Option (List ℕ)
  pub deserialize_header : List ℕ → Option KeyFileHeader
  pub deserialize_lindell : List ℕ → Option LindellKeyData
  pub deserialize_cggmp21 : List ℕ → Option Cggmp21KeyData

-- What bincode documents: a value is read back, and a struct is the sequence of its fields, so that the
-- first fields can be read alone.
pub record IsBincode (libs : Libraries) : Type 0 where
  pub deserialize-serialize_lindell :
      (d : LindellKeyData) (bytes : List ℕ)
      → libs.serialize_lindell d ≡ some bytes
      → libs.deserialize_lindell bytes ≡ some d
  pub header-serialize_lindell :
      (d : LindellKeyData) (bytes : List ℕ)
      → libs.serialize_lindell d ≡ some bytes
      → libs.deserialize_header bytes
        ≡ some (record { protocol = d.protocol; party_index = d.party_index })
  pub deserialize-serialize_cggmp21 :
      (d : Cggmp21KeyData) (bytes : List ℕ)
      → libs.serialize_cggmp21 d ≡ some bytes
      → libs.deserialize_cggmp21 bytes ≡ some d
  pub header-serialize_cggmp21 :
      (d : Cggmp21KeyData) (bytes : List ℕ)
      → libs.serialize_cggmp21 d ≡ some bytes
      → libs.deserialize_header bytes
        ≡ some (record { protocol = d.protocol; party_index = d.party_index })

-- The connections in their order, and the network and the draws of each protocol; R and E are the errors
-- of rounds and of sends.
pub record World (c : Curve) (R E : Type 0) : Type 0 where
  pub connection : Outcome E (Unit {0})
  pub reconnection : Outcome E (Unit {0})
  pub sign_reconnection : Outcome E (Unit {0})
  pub dkg_net : Dkg.Network c R E
  pub dkg_secret : c.Scalar
  pub dkg_draw : ℕ → c.Scalar
  pub sign_net : Sign.Network c R E
  pub p1_draws : Sign.P1Draws c
  pub p2_draws : Sign.P2Draws
  pub keygen_net : Keygen.Network c R E
  pub keygen_draws : Keygen.Draws c
  pub loaded_kp : PaillierKeypair
  pub presign_net : Presign.Network c R E
  pub presign_draws : Presign.Draws c
  pub online_net : OnlineSign.Network R E
