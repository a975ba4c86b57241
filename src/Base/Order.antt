-- ===== src/Base/Order.antt =====
-- Well-founded recursion on `<`, and checks over a small range.
use mathlib.Core.WellFounded.{Acc}
use Prim.Native.Nat.{ℕ, zero, suc, ◌<◌}
use mathlib.Core.Bool.{Bool, true, ◌&&◌}
use mathlib.Core.Path.{◌≡◌}
use native.Mathlib.Omega.{arith}

Acc-below : (k n : ℕ) → n < k → Acc ◌<◌ n
Acc-below zero n h = elim h [ ]
Acc-below (suc k) n h = Acc.intro n (λ m hm. Acc-below k m (omega arith))

unfoldable pub lt_wf : (n : ℕ) → Acc ◌<◌ n
unfolding Acc-below
lt_wf n = Acc-below (suc n) n (omega arith)

-- Whether a test passes for all numbers under a limit.
unfoldable pub passes_under : (ℕ → Bool) → ℕ → Bool
passes_under test zero = true
passes_under test (suc limit) = passes_under test limit && test limit

pub passes_under_at :
    (test : ℕ → Bool) (limit i : ℕ) → i < limit → passes_under test limit ≡ true → test i ≡ true
unfolding passes_under
passes_under_at test zero i small all = absurd (omega arith)
passes_under_at test (suc limit) i small all = ground (arith, passes_under_at test limit i)
