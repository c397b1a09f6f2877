-- ===== src/Tests.antt =====
-- Runs of the models on small numbers: the curve of five elements, Paillier keys modulo 77, and a hash
-- that is constant.
pub mod Setup
pub mod Sharing
pub mod Ciphertexts
pub mod Signing
pub mod Presigning
pub mod Sink
pub mod Arguments
pub mod Files
pub mod Commands
pub mod NextRun
pub mod Lines
pub mod Connections
pub mod Primes
pub mod Keygen
pub mod TwoParty
