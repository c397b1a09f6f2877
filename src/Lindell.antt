-- ===== src/Lindell.antt =====
-- src/lindell: the Lindell protocol. This file has the messages of the key generation and its result.
pub mod KeyData
pub mod Dkg
pub mod Sign
use govis.Prelude.{ℕ, List}
use govis.Curve.{Curve}

pub record CommitMsg : Type 0 where
  pub commitment : List ℕ

pub record RevealMsg (c : Curve) : Type 0 where
  pub public_coeffs : List c.Point

pub record ShareMsg (c : Curve) : Type 0 where
  pub share : c.Scalar

pub data Msg (c : Curve) : Type 0 where
  round1 : CommitMsg → Msg c
  round2 : RevealMsg c → Msg c
  round3 : ShareMsg c → Msg c

pub record LindellDkgOutput (c : Curve) : Type 0 where
  pub secret_share : c.Scalar
  pub public_key : c.Point
