-- ===== src/Prelude/Order.antt =====
-- `<` on the native numbers is well founded.
use Prim.Native.Nat.{ℕ, zero, suc, ◌<◌}
use mathlib.Core.WellFounded.{Acc, WellFounded}
use native.Mathlib.Omega.{arith}

below_Acc : (k n : ℕ) → n < k → Acc ◌<◌ n
below_Acc zero n h = elim h [ ]
below_Acc (suc k) n h = Acc.intro n (λ m hm. below_Acc k m (omega arith))

unfoldable pub lt_wf : WellFounded ◌<◌
unfolding below_Acc
lt_wf = record { apply = λ n. below_Acc (suc n) n (omega arith) }
