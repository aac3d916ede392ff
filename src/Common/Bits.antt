-- ===== src/Common/Bits.antt =====
-- `&` and `|` on masks and disjoint fields, as arithmetic, at every width.
use Prim.Native.Nat.{
  ℕ, zero, suc, ◌+◌, ◌-◌, ◌*◌, ◌/◌, ◌%◌, ◌^◌, ◌≤◌, ◌<◌, min, max, bit_and, bit_or,
}
use Prim.Native.Nat.{digits, bitwise, bit_and-bitwise, bit_or-bitwise}
use mathlib.Core.Path.{◌≡◌, refl, ap, sym, ◌∙◌}
use native.Mathlib.Nat.{le_refl, pow-suc, one-le-pow, div-div-eq-div-mul}
use native.Mathlib.Omega.{arith}

-- The native operations mean a recursion on binary digits with fuel; more fuel changes nothing.
module _ (rest : ℕ → ℕ) (bit : ℕ → ℕ → ℕ) where
  digits_enough : (n m a b : ℕ) → a ≤ n → a ≤ m → digits rest bit n a b ≡ digits rest bit m a b
  digits_enough zero zero zero b p q = refl
  digits_enough zero (suc m) zero b p q = refl
  digits_enough (suc n) zero zero b p q = refl
  digits_enough (suc n) (suc m) zero b p q = refl
  digits_enough zero m (suc a) b p q = absurd (omega arith)
  digits_enough (suc n) zero (suc a) b p q = absurd (omega arith)
  digits_enough (suc n) (suc m) (suc a) b p q =
      ap (λ (t : ℕ). t * 2 + bit (suc a % 2) (b % 2))
        (digits_enough n m (suc a / 2) (b / 2) (omega arith) (omega arith))

  bitwise_lowest :
      (a b : ℕ)
      → bitwise rest bit (suc a) b
        ≡ bitwise rest bit (suc a / 2) (b / 2) * 2 + bit (suc a % 2) (b % 2)
  bitwise_lowest a b =
      omega (arith, digits_enough a (suc a / 2) (suc a / 2) (b / 2) (omega arith) (le_refl _))

-- One equation for the lowest digit.
or_lowest : (a b : ℕ) → bit_or a b ≡ bit_or (a / 2) (b / 2) * 2 + max (a % 2) (b % 2)
or_lowest zero b = simp bit_or-bitwise (omega arith)
or_lowest (suc a) b = simp bit_or-bitwise (bitwise_lowest (λ y. y) max a b)

and_lowest : (a b : ℕ) → bit_and a b ≡ bit_and (a / 2) (b / 2) * 2 + min (a % 2) (b % 2)
and_lowest zero b = simp bit_and-bitwise (omega arith)
and_lowest (suc a) b = simp bit_and-bitwise (bitwise_lowest (λ y. 0) min a b)

-- On fuel `n`, since the proofs go from `a` to `a / 2`.
or_nothing : (n a : ℕ) → a ≤ n → bit_or a 0 ≡ a
or_nothing n zero h = refl
or_nothing zero (suc a) h = absurd (omega arith)
or_nothing (suc n) (suc a) h =
    omega (arith, or_lowest (suc a) 0, or_nothing n (suc a / 2) (omega arith))

and_nothing : (n a : ℕ) → a ≤ n → bit_and a 0 ≡ 0
and_nothing n zero h = refl
and_nothing zero (suc a) h = absurd (omega arith)
and_nothing (suc n) (suc a) h =
    omega (arith, and_lowest (suc a) 0, and_nothing n (suc a / 2) (omega arith))

pub bit_or-zero : (a : ℕ) → bit_or a 0 ≡ a
bit_or-zero a = or_nothing a a (le_refl a)

pub bit_and-zero : (a : ℕ) → bit_and a 0 ≡ 0
bit_and-zero a = and_nothing a a (le_refl a)

pub pow_double : (k : ℕ) → 2 ^ suc k ≡ 2 * 2 ^ k
pow_double k = omega (arith, pow-suc 2 k)

pub pow_pos : (k : ℕ) → 1 ≤ 2 ^ k
pow_pos k = one-le-pow k 2 (omega arith)

scaled_double : (q k : ℕ) → q * 2 ^ suc k ≡ 2 * (q * 2 ^ k)
scaled_double q k = omega (arith, ap (λ (t : ℕ). q * t) (pow-suc 2 k))

-- `(q << k) | r` is a sum when `r` fits `k` bits.
pub bit_or_disjoint : (k q r : ℕ) → r < 2 ^ k → bit_or (q * 2 ^ k) r ≡ q * 2 ^ k + r
bit_or_disjoint zero q r fits = ground (arith, bit_or-zero q)
bit_or_disjoint (suc k) q r fits = ground (
  arith,
  or_lowest (q * 2 ^ suc k) r,
  scaled_double q k,
  bit_or_disjoint k q (r / 2) (omega (arith, pow_double k)),
)

-- A mask of `k` low ones leaves the remainder by `2 ^ k`.
mask_of_sum : (k q r : ℕ) → r < 2 ^ k → bit_and (q * 2 ^ k + r) (2 ^ k - 1) ≡ r
mask_of_sum zero q r fits = rw bit_and-zero (omega arith)
mask_of_sum (suc k) q r fits = ground (
  arith,
  and_lowest (q * 2 ^ suc k + r) (2 ^ suc k - 1),
  scaled_double q k,
  pow_double k,
  pow_pos k,
  mask_of_sum k q (r / 2) (omega (arith, pow_double k)),
)

pub bit_and_low : (k a : ℕ) → bit_and a (2 ^ k - 1) ≡ a % 2 ^ k
bit_and_low k a = ground (arith, pow_pos k, mask_of_sum k (a / 2 ^ k) (a % 2 ^ k))

halve_pow : (a k : ℕ) → a / 2 / 2 ^ k ≡ a / 2 ^ suc k
halve_pow a k = div-div-eq-div-mul a 2 (2 ^ k) ∙ ap (λ (t : ℕ). a / t) (sym (pow_double k))

-- A mask that is shifted up sees only the high part.
pub bit_and_shifted : (k a m : ℕ) → bit_and a (m * 2 ^ k) ≡ bit_and (a / 2 ^ k) m * 2 ^ k
bit_and_shifted zero a m = ground arith
bit_and_shifted (suc k) a m = ground (
  arith,
  and_lowest a (m * 2 ^ suc k),
  scaled_double m k,
  scaled_double (bit_and (a / 2 ^ suc k) m) k,
  bit_and_shifted k (a / 2) m,
  halve_pow a k,
)

-- `|` stays within the width of its operands.
pub bit_or-lt : (k a b : ℕ) → a < 2 ^ k → b < 2 ^ k → bit_or a b < 2 ^ k
bit_or-lt zero a b ha hb = ground (arith, bit_or-zero a)
bit_or-lt (suc k) a b ha hb = omega (
  arith,
  or_lowest a b,
  pow_double k,
  bit_or-lt k (a / 2) (b / 2) (omega (arith, pow_double k)) (omega (arith, pow_double k)),
)
