-- ===== src/Common/Tables.antt =====
-- Statements over a small range, checked by evaluation.
use Prim.Native.Nat.{ℕ, zero, suc, ◌<◌}
use mathlib.Core.Path.{◌≡◌}
use mathlib.Core.Bool.{Bool, true, ◌&&◌}
use native.Mathlib.Omega.{arith}

unfoldable pub every_below : ℕ → (ℕ → Bool) → Bool
every_below zero test = true
every_below (suc k) test = every_below k test && test k

pub every_below_sound :
    (bound : ℕ) (test : ℕ → Bool) (v : ℕ)
    → every_below bound test ≡ true
    → v < bound
    → test v ≡ true
unfolding every_below
every_below_sound zero test v checked within = absurd (omega arith)
every_below_sound (suc k) test v checked within = ground (arith, every_below_sound k test v)
