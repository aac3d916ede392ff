-- ===== src/Common/Lists.antt =====
-- Lists measured by native numbers, predicates on lists, and strictly descending lists.
use Prim.Native.Nat.{ℕ, zero, suc, ◌+◌, ◌≤◌, ◌<◌}
use mathlib.Core.Path.{◌≡◌, refl, ap}
use mathlib.Core.List.{List, [], ◌∷◌, ◌++◌, map}
use native.Mathlib.Omega.{arith}

module _ {ℓ} {A : Type ℓ} where
  abbrev pub length : List A → ℕ
  length [] = 0
  length (x ∷ xs) = suc (length xs)

  pub length-append : (xs ys : List A) → length (xs ++ ys) ≡ length xs + length ys
  length-append [] ys = omega arith
  length-append (x ∷ xs) ys = omega (arith, length-append xs ys)

  abbrev pub All {κ} : (A → Type κ) → List A → Type κ
  All P [] = Unit {κ}
  All P (x ∷ xs) = P x × All P xs

  pub All-append {κ} : (P : A → Type κ) (xs ys : List A) → All P xs → All P ys → All P (xs ++ ys)
  All-append P [] ys hx hy = hy
  All-append P (x ∷ xs) ys hx hy = (hx.0, All-append P xs ys hx.1 hy)

module _ {ℓ} {A : Type ℓ} where
  abbrev pub replicate : ℕ → A → List A
  replicate zero a = []
  replicate (suc n) a = a ∷ replicate n a

module _ {ℓ} {A : Type ℓ} where
  abbrev pub get_or : List A → ℕ → A → A
  get_or [] i d = d
  get_or (x ∷ xs) zero d = x
  get_or (x ∷ xs) (suc i) d = get_or xs i d

  -- A write out of bounds changes nothing.
  abbrev pub set : List A → ℕ → A → List A
  set [] i v = []
  set (x ∷ xs) zero v = v ∷ xs
  set (x ∷ xs) (suc i) v = x ∷ set xs i v

module _ {ℓ κ} {A : Type ℓ} {B : Type κ} where
  pub length-map : (xs : List A) (f : A → B) → length (map f xs) ≡ length xs
  length-map [] f = refl
  length-map (x ∷ xs) f = ap suc (length-map xs f)

-- Each number is above all that stand before it.
abbrev pub IsAscending : List ℕ → Type 0
IsAscending [] = Unit
IsAscending (x ∷ xs) = All (λ y. x < y) xs × IsAscending xs

-- Each number is below all that stand before it.
abbrev pub IsDescending : List ℕ → Type 0
IsDescending [] = Unit
IsDescending (x ∷ xs) = All (λ y. y < x) xs × IsDescending xs

pub All-mono {ℓ κ μ} :
    {A : Type ℓ} (P : A → Type κ) (Q : A → Type μ) (xs : List A)
    → ((a : A) → P a → Q a)
    → All P xs
    → All Q xs
All-mono P Q [] h all = tt
All-mono P Q (x ∷ xs) h (hx, hxs) = (h x hx, All-mono P Q xs h hxs)

pub All-above : (a b : ℕ) (xs : List ℕ) → a < b → All (λ x. b < x) xs → All (λ x. a < x) xs
All-above a b [] h all = tt
All-above a b (x ∷ xs) h (hx, hxs) = (omega arith, All-above a b xs h hxs)

module _ {ℓ} {A : Type ℓ} where
  abbrev pub take : ℕ → List A → List A
  take zero xs = []
  take (suc n) [] = []
  take (suc n) (x ∷ xs) = x ∷ take n xs

  pub length-take : (n : ℕ) (xs : List A) → n ≤ length xs → length (take n xs) ≡ n
  length-take zero xs h = refl
  length-take (suc n) [] h = absurd (omega arith)
  length-take (suc n) (x ∷ xs) h = ap suc (length-take n xs (omega arith))

  pub All-take {κ} : (P : A → Type κ) (n : ℕ) (xs : List A) → All P xs → All P (take n xs)
  All-take P zero xs h = tt
  All-take P (suc n) [] h = tt
  All-take P (suc n) (x ∷ xs) (hx, h) = (hx, All-take P n xs h)

pub IsAscending-take : (n : ℕ) (xs : List ℕ) → IsAscending xs → IsAscending (take n xs)
IsAscending-take zero xs h = tt
IsAscending-take (suc n) [] h = tt
IsAscending-take (suc n) (x ∷ xs) (above, h) = (All-take _ n xs above, IsAscending-take n xs h)

-- Two ascending lists with a number between them.
pub IsAscending-append :
    (mid : ℕ) (xs ys : List ℕ)
    → IsAscending xs
    → IsAscending ys
    → All (λ x. x ≤ mid) xs
    → All (λ y. mid < y) ys
    → IsAscending (xs ++ ys)
IsAscending-append mid [] ys ax ay below above = ay
IsAscending-append mid (x ∷ xs) ys (first, ax) ay (b, below) above = (
  All-append _ xs ys first (All-mono _ _ ys (λ y lt. omega arith) above),
  IsAscending-append mid xs ys ax ay below above,
)
