-- ===== src/Cggmp21.antt =====
-- src/cggmp21: the CGGMP21 protocol. This file has the data that its phases hand on.
pub mod KeyData
pub mod Keygen
pub mod OnlineSign
pub mod Presign
pub mod Session
use govis.Prelude.{ℕ}
use govis.Curve.{Curve}

-- src/cggmp21/presign.rs
pub record Presignature (c : Curve) : Type 0 where
  pub k : c.Scalar
  pub k_inv : c.Scalar
  pub r : c.Scalar
  pub r_point : c.Point
