-- ===== src/Common/Order.antt =====
-- The order of byte strings that Rust derives for arrays and slices.
use Prim.Native.Nat.{ℕ, ◌<◌, compare, Ordering}
use mathlib.Core.Path.{◌≡◌}
use mathlib.Core.List.{List, [], ◌∷◌}
use native.Mathlib.Omega.{arith}

-- At the first place where they differ; a string comes before those that continue it.
unfoldable pub cmp_bytes : List ℕ → List ℕ → Ordering
cmp_bytes [] [] = Ordering.eq
cmp_bytes [] (b ∷ ys) = Ordering.lt
cmp_bytes (a ∷ xs) [] = Ordering.gt
cmp_bytes (a ∷ xs) (b ∷ ys) = elim (compare a b) [ Ordering.eq ↦ cmp_bytes xs ys | o ↦ o ]

pub lt_compare : (m n : ℕ) → m < n → compare m n ≡ Ordering.lt
lt_compare m n h = ground arith

pub gt_compare : (m n : ℕ) → n < m → compare m n ≡ Ordering.gt
gt_compare m n h = ground arith
