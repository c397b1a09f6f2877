-- ===== src/Big/Draws.antt =====
-- The range of a number that is drawn, for `gen_bigint_range` of num_bigint.
use govis.Prelude.{ℕ, ltb, if◌then◌else◌, Option, none, some}
use govis.Prelude.Int.{ℤ}

-- `gen_bigint_range(1, n)` panics on an empty range; otherwise it is the number drawn.
unfoldable pub drawn_below : ℕ → ℤ → Option ℤ
drawn_below n rho = if ltb 1 n then some rho else none
