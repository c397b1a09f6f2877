-- ===== src/Lindell/KeyData.antt =====
-- src/lindell/types.rs: the form of a party's key share on disk.
use govis.Prelude.{ℕ, Option, none, some, List, codes, true, if◌then◌else◌, ◌≡◌, refl}
use govis.Prelude.Bytes.{same_bytes}
use govis.Prelude.Maybe.{◌>>=◌}
use govis.Curve.{Curve}
use govis.Lindell.{LindellDkgOutput}

pub record LindellKeyData : Type 0 where
  pub protocol : List ℕ
  pub party_index : ℕ
  pub secret_share : List ℕ
  pub public_key : List ℕ

module _ (c : Curve) where
  open c use {
    from_be_bytes_mod_order, to_be_bytes, point_bytes, point_from_bytes, from-to_be_bytes,
    point_from-point_bytes,
  }

  unfoldable pub to_key_data : LindellDkgOutput c → ℕ → LindellKeyData
  to_key_data out party_index = record {
    protocol = codes "lindell";
    party_index = party_index;
    secret_share = to_be_bytes out.secret_share;
    public_key = point_bytes true out.public_key;
  }

  -- `none` is the panic at another protocol's name or at bytes that are no point.
  unfoldable pub from_key_data : LindellKeyData → Option (LindellDkgOutput c)
  from_key_data key_data = do
    matching ← if same_bytes key_data.protocol (codes "lindell") then some tt else none
    public_key ← point_from_bytes key_data.public_key
    some (record {
      secret_share = from_be_bytes_mod_order key_data.secret_share;
      public_key = public_key;
    })

  -- Reading the key data that is written for a party does not panic and gives its output back.
  pub from_key_data-to_key_data :
      (out : LindellDkgOutput c) (party_index : ℕ)
      → from_key_data (to_key_data out party_index) ≡ some out
  unfolding from_key_data to_key_data
  from_key_data-to_key_data out party_index =
      rw (point_from-point_bytes out.public_key, from-to_be_bytes out.secret_share) refl
