-- ===== src/Common/Places.antt =====
-- Reading and writing the places of a list.
use Prim.Native.Nat.{ℕ, zero, suc, ◌<◌}
use mathlib.Core.Path.{◌≡◌, refl, ap}
use mathlib.Core.Bool.{false}
use mathlib.Core.List.{List, [], ◌∷◌}
use native.Mathlib.Omega.{arith}
use ferroid.Common.Tests.{◌==◌}
use ferroid.Common.Lists.{length, All, get_or, set}

module _ {ℓ} {A : Type ℓ} where
  pub length-set : (xs : List A) (i : ℕ) (x : A) → length (set xs i x) ≡ length xs
  length-set [] i x = refl
  length-set (y ∷ xs) zero x = refl
  length-set (y ∷ xs) (suc i) x = ap suc (length-set xs i x)

  pub get_or-set_same :
      (xs : List A) (i : ℕ) (x d : A) → i < length xs → get_or (set xs i x) i d ≡ x
  get_or-set_same [] i x d h = absurd (omega arith)
  get_or-set_same (y ∷ xs) zero x d h = refl
  get_or-set_same (y ∷ xs) (suc i) x d h = get_or-set_same xs i x d (omega arith)

  pub get_or-set_other :
      (xs : List A) (i j : ℕ) (x d : A) → (i == j) ≡ false → get_or (set xs i x) j d ≡ get_or xs j d
  get_or-set_other [] i j x d h = refl
  get_or-set_other (y ∷ xs) zero zero x d h = absurd (ground arith)
  get_or-set_other (y ∷ xs) zero (suc j) x d h = refl
  get_or-set_other (y ∷ xs) (suc i) zero x d h = refl
  get_or-set_other (y ∷ xs) (suc i) (suc j) x d h = get_or-set_other xs i j x d (ground arith)

  pub All-get_or {κ} :
      (P : A → Type κ) (xs : List A) (i : ℕ) (d : A) → All P xs → i < length xs → P (get_or xs i d)
  All-get_or P [] i d all h = absurd (omega arith)
  All-get_or P (x ∷ xs) zero d (hx, all) h = hx
  All-get_or P (x ∷ xs) (suc i) d (hx, all) h = All-get_or P xs i d all (omega arith)

  pub All-set {κ} :
      (P : A → Type κ) (xs : List A) (i : ℕ) (x : A) → All P xs → P x → All P (set xs i x)
  All-set P [] i x all hx = tt
  All-set P (y ∷ xs) zero x (hy, all) hx = (hx, all)
  All-set P (y ∷ xs) (suc i) x (hy, all) hx = (hy, All-set P xs i x all hx)
