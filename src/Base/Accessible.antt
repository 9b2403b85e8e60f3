-- ===== src/Base/Accessible.antt =====
-- The order of the native numbers is well founded, in a form that runs.
use Prim.Native.Nat.{ℕ, zero, suc, ◌<◌}
use mathlib.Core.WellFounded.{Acc, WellFounded}
use native.Mathlib.Omega.{arith}

Acc-below : (bound n : ℕ) → n < bound → Acc ◌<◌ n
Acc-below zero n h = absurd (omega arith)
Acc-below (suc bound) n h = Acc.intro n (λ m hm. Acc-below bound m (omega arith))

unfoldable pub lt_wf : WellFounded ◌<◌
unfolding Acc-below
lt_wf = record { apply = λ n. Acc-below (suc n) n (omega arith) }
