-- ===== src/Cggmp21/KeyData.antt =====
-- src/cggmp21/types.rs: the key share that a party keeps, and its form on disk.
use govis.Prelude.{ℕ, Option, none, some, List, [], codes, true, if◌then◌else◌, ◌≡◌, refl}
use govis.Prelude.Bytes.{same_bytes}
use govis.Prelude.Maybe.{◌>>=◌}
use govis.Curve.{Curve}
use govis.Paillier.{PaillierPublicKey, PaillierPrivateKey, PaillierKeypair}

pub record Cggmp21KeygenOutput (c : Curve) : Type 0 where
  pub ec_share : c.Scalar
  pub public_key : c.Point
  pub paillier_sk : PaillierPrivateKey
  pub paillier_pk : PaillierPublicKey
  pub peer_paillier_pks : List (Option PaillierPublicKey)

pub record Cggmp21KeyData : Type 0 where
  pub protocol : List ℕ
  pub party_index : ℕ
  pub ec_share : List ℕ
  pub public_key : List ℕ

module _ (c : Curve) where
  open c use {
    Scalar, Point, from_be_bytes_mod_order, to_be_bytes, point_bytes, point_from_bytes,
    from-to_be_bytes, point_from-point_bytes,
  }

  unfoldable pub to_key_data : Cggmp21KeygenOutput c → ℕ → Cggmp21KeyData
  to_key_data out party_index = record {
    protocol = codes "cggmp21";
    party_index = party_index;
    ec_share = to_be_bytes out.ec_share;
    public_key = point_bytes true out.public_key;
  }

  -- `kp` is the Paillier key pair that `generate_keypair` makes; `none` is a panic.
  unfoldable pub from_key_data : PaillierKeypair → Cggmp21KeyData → Option (Cggmp21KeygenOutput c)
  from_key_data kp key_data = do
    matching ← if same_bytes key_data.protocol (codes "cggmp21") then some tt else none
    public_key ← point_from_bytes key_data.public_key
    some (record {
      ec_share = from_be_bytes_mod_order key_data.ec_share;
      public_key = public_key;
      paillier_sk = kp.sk;
      paillier_pk = kp.pk;
      peer_paillier_pks = [];
    })

  -- Reading the key data of a party does not panic and gives its share and public key back, with the
  -- fresh Paillier keys in place of its own and without those of the other parties.
  pub from_key_data-to_key_data_fresh :
      (out : Cggmp21KeygenOutput c) (party_index : ℕ) (kp : PaillierKeypair)
      → from_key_data kp (to_key_data out party_index)
        ≡ some (record {
          ec_share = out.ec_share;
          public_key = out.public_key;
          paillier_sk = kp.sk;
          paillier_pk = kp.pk;
          peer_paillier_pks = [];
        })
  unfolding from_key_data to_key_data
  from_key_data-to_key_data_fresh out party_index kp =
      rw (point_from-point_bytes out.public_key, from-to_be_bytes out.ec_share) refl
