-- ===== src/Zk.antt =====
-- src/paillier_zk.rs: the zero-knowledge proofs. Each child has the messages, the prover and the
-- verifier of one proof; the hash and the values drawn by the prover are arguments.
pub mod Powers
pub mod Range
pub mod Mul
pub mod Schnorr
pub mod Log
pub mod Consistency
pub mod Blum
use govis.Prelude.{ℕ, ◌+◌, ◌*◌, Option, List, Bool}
use govis.Prelude.Int.{ℤ, pos, nat_abs, rem?, ◌+ℤ◌, ◌*ℤ◌}
use govis.Big.{Big}

unfoldable pub g_pow : ℤ → ℕ → ℕ → Option ℤ
g_pow m n n_sq = rem? (pos 1 +ℤ m *ℤ pos n) n_sq

-- `x.to_bytes_be().1`: the bytes of the magnitude.
abbrev pub magnitude_bytes : Big → ℤ → List ℕ
magnitude_bytes big x = big.to_bytes_be (nat_abs x)

-- The security parameter that each proof declares.
abbrev pub sec : ℕ
sec = 256
