-- ===== src/Server/Pool/Manager/Dealt.antt =====
-- Dealing requests out in turn, and how many each gets.
use native.Mathlib.Nat.{mul-add-div_right, div-add-mod', mod-lt, div-eq_of_lt}
use ferroid.Common.{
  ℕ, ◌+◌, ◌-◌, ◌*◌, ◌/◌, ◌%◌, ◌≤◌, ◌<◌, ◌≡◌, inl, inr, refl, ap, ◌∙◌, arith, true, false,
  Bool-cases, compare_cases, List, [], ◌∷◌, length, if◌then◌else◌, ◌==◌,
}
use ferroid.Server.Pool.Worker.{WorkRequest}

-- Of requests that are numbered from `from` on, those whose number is `i` modulo `n`.
abbrev pub dealt : ℕ → ℕ → ℕ → List WorkRequest → List WorkRequest
dealt n from i [] = []
dealt n from i (request ∷ requests) =
    if from % n == i then request ∷ dealt n (from + 1) i requests else dealt n (from + 1) i requests

lower : (n q y : ℕ) → y < n → (q * n + y) / n ≡ q
lower n q y h =
    mul-add-div_right (omega arith) q y ∙ ap (λ (t : ℕ). q + t) (div-eq_of_lt h) ∙ omega arith

upper : (n q y : ℕ) → n ≤ y → y < n + n → (q * n + y) / n ≡ q + 1
upper n q y h h' = ap (λ (t : ℕ). t / n) (omega arith) ∙ lower n (q + 1) (y - n) (omega arith)

-- The number `x` with its quotient and its remainder.
split_number : (n x t : ℕ) → (x + t) / n ≡ (x / n * n + (x % n + t)) / n
split_number n x t = ap (λ (s : ℕ). s / n) (omega (arith, div-add-mod' x n))

-- One number more: the quotient grows exactly where the remainder is reached.
next_quotient :
    (n x i : ℕ)
    → i < n
    → (x + 1 + (n - 1 - i)) / n ≡ (x + (n - 1 - i)) / n + (if x % n == i then 1 else 0)
next_quotient n x i h =
    let r : x % n < n = mod-lt x (omega arith) in
    ap (λ (t : ℕ). t / n) (omega arith)
    ∙ split_number n x (n - 1 - i + 1)
    ∙ rw (split_number n x (n - 1 - i)) (elim (compare_cases (x % n) i) [
      | inl (c, lt) ↦
          let e : (x % n == i) ≡ false = ground arith in
          rw
            (
              e,
              lower n (x / n) (x % n + (n - 1 - i + 1)) (omega arith),
              lower n (x / n) (x % n + (n - 1 - i)) (omega arith),
            )
            (omega arith)
      | inr (inl (c, same)) ↦
          let e : (x % n == i) ≡ true = ground arith in
          rw
            (
              e,
              upper n (x / n) (x % n + (n - 1 - i + 1)) (omega arith) (omega arith),
              lower n (x / n) (x % n + (n - 1 - i)) (omega arith),
            )
            refl
      | inr (inr (c, gt)) ↦
          let e : (x % n == i) ≡ false = ground arith in
          rw
            (
              e,
              upper n (x / n) (x % n + (n - 1 - i + 1)) (omega arith) (omega arith),
              upper n (x / n) (x % n + (n - 1 - i)) (omega arith) (omega arith),
            )
            (omega arith)
    ])

-- The number of those dealt to `i`.
pub length-dealt :
    (n from i : ℕ) (requests : List WorkRequest)
    → i < n
    → length (dealt n from i requests) + (from + (n - 1 - i)) / n
      ≡ (from + length requests + (n - 1 - i)) / n
length-dealt n from i [] h =
    let same : (from + (n - 1 - i)) / n ≡ (from + 0 + (n - 1 - i)) / n =
      ap (λ (t : ℕ). t / n) (omega arith) in
    omega (arith, same)
length-dealt n from i (request ∷ requests) h =
    let rest = length-dealt n (from + 1) i requests h in
    let same : (from + length (request ∷ requests) + (n - 1 - i)) / n
        ≡ (from + 1 + length requests + (n - 1 - i)) / n =
      ap (λ (t : ℕ). t / n) (omega arith) in
    let next = next_quotient n from i h in
    elim (Bool-cases (from % n == i)) [
      | inl e ↦ rw e (omega (arith, rest, same, rw e at next))
      | inr e ↦ rw e (omega (arith, rest, same, rw e at next))
    ]
