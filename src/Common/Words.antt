-- ===== src/Common/Words.antt =====
-- Unsigned words of a given width: shifts, complement, and the arithmetic of two packed fields.
use Prim.Native.Nat.{ℕ, zero, suc, ◌+◌, ◌-◌, ◌*◌, ◌/◌, ◌%◌, ◌^◌, ◌≤◌, ◌<◌, bit_and, bit_or}
use mathlib.Core.Path.{◌≡◌, sym, ap, ◌∙◌}
use native.Mathlib.Nat.{
  mod-lt, div-add-mod', div-lt_iff_lt-mul, mod-eq_of_lt, div-eq_of_lt, mul-add-div_right,
  mod-eq-sub-div-mul,
}
use native.Mathlib.Nat.{
  add_comm, mul_assoc, add-zero, zero-add, suc-add, mul-le-mul_right, pow-le-pow_right,
}
use native.Mathlib.Omega.{arith}
use ferroid.Common.Bits.{pow_double, pow_pos, bit_or_disjoint, bit_and_low, bit_and_shifted}
use mathlib.Core.Logic.{◌↔◌}

-- `x << k` on a word of `w` bits: what leaves the word is lost.
unfoldable pub shl : ℕ → ℕ → ℕ → ℕ
shl w x k = (x * 2 ^ k) % 2 ^ w

unfoldable pub shr : ℕ → ℕ → ℕ
shr x k = x / 2 ^ k

-- `!x` on a word of `w` bits.
unfoldable pub bit_not : ℕ → ℕ → ℕ
bit_not w x = 2 ^ w - 1 - x

pub pow-add : (a b : ℕ) → 2 ^ (a + b) ≡ 2 ^ a * 2 ^ b
pow-add zero b = rw zero-add (omega arith)
pow-add (suc a) b = rw (suc-add, pow_double (a + b), pow_double a, pow-add a b) (omega arith)

next_multiple : (k hi hi' : ℕ) → hi < hi' → hi * 2 ^ k + 2 ^ k ≤ hi' * 2 ^ k
next_multiple k hi hi' h = omega (arith, mul-le-mul_right {m = suc hi} {n = hi'} (2 ^ k) h)

-- The high field decides the order of two packed pairs.
pub packed_order :
    (k hi hi' lo lo' : ℕ) → lo < 2 ^ k → hi < hi' → hi * 2 ^ k + lo < hi' * 2 ^ k + lo'
packed_order k hi hi' lo lo' l h = omega (arith, next_multiple k hi hi' h)

pub packed-lt : (j k hi lo : ℕ) → hi < 2 ^ j → lo < 2 ^ k → hi * 2 ^ k + lo < 2 ^ (j + k)
packed-lt j k hi lo h l = rw (pow-add j k) (omega (arith, next_multiple k hi (2 ^ j) h))

pub shl_fits : (w j k x : ℕ) → x < 2 ^ j → j + k ≤ w → shl w x k ≡ x * 2 ^ k
unfolding shl
shl_fits w j k x h le =
    mod-eq_of_lt
      (omega (arith, packed-lt j k x 0 h (pow_pos k), pow-le-pow_right {n = 2} (omega arith) le))

pub packed_high : (k hi lo : ℕ) → lo < 2 ^ k → (hi * 2 ^ k + lo) / 2 ^ k ≡ hi
packed_high k hi lo l = mul-add-div_right (pow_pos k) hi lo ∙ rw (div-eq_of_lt l) (add-zero hi)

pub packed_low : (k hi lo : ℕ) → lo < 2 ^ k → (hi * 2 ^ k + lo) % 2 ^ k ≡ lo
packed_low k hi lo l = omega (
  arith,
  packed_high k hi lo l,
  mod-eq-sub-div-mul (hi * 2 ^ k + lo) (2 ^ k),
  ap (λ (t : ℕ). t * 2 ^ k) (packed_high k hi lo l),
)

pub shl_one : (w k : ℕ) → k < w → shl w 1 k ≡ 2 ^ k
shl_one w k h = shl_fits w 1 k 1 (omega arith) (omega arith) ∙ omega arith

pub shl-zero : (w x : ℕ) → x < 2 ^ w → shl w x 0 ≡ x
unfolding shl
shl-zero w x h = mod-eq_of_lt (omega arith) ∙ omega arith

-- Shifting by two amounts is shifting by their sum.
scaled_twice : (t a b : ℕ) → t * 2 ^ (a + b) ≡ t * 2 ^ a * 2 ^ b
scaled_twice t a b = rw (pow-add a b) (sym (mul_assoc t (2 ^ a) (2 ^ b)))

-- Two fields joined by `|` make the packed word.
pub join_two :
    (w j k hi lo : ℕ)
    → hi < 2 ^ j
    → lo < 2 ^ k
    → j + k ≤ w
    → bit_or (shl w hi k) (shl w lo 0) ≡ hi * 2 ^ k + lo
join_two w j k hi lo h l le =
    rw (shl_fits w j k hi h le, shl-zero w lo low_fits) (bit_or_disjoint k hi lo l)
  where
    low_fits : lo < 2 ^ w
    low_fits = omega (arith, pow-le-pow_right {n = 2} (omega arith) {i = k} {j = w} (omega arith))

joined_high :
    (j k hi mid : ℕ)
    → mid < 2 ^ j
    → bit_or (hi * 2 ^ (k + j)) (mid * 2 ^ k) ≡ (hi * 2 ^ j + mid) * 2 ^ k
joined_high j k hi mid m =
    bit_or_disjoint (k + j) hi (mid * 2 ^ k)
      (rw (add_comm k j) (omega (arith, packed-lt j k mid 0 m (pow_pos k))))
    ∙ rw (add_comm k j) (omega (arith, scaled_twice hi j k))

-- Three fields joined by `|`, the middle one shifted by the width of the low one.
pub join_three :
    (w i j k hi mid lo : ℕ)
    → hi < 2 ^ i
    → mid < 2 ^ j
    → lo < 2 ^ k
    → i + j + k ≤ w
    → bit_or (bit_or (shl w hi (k + j)) (shl w mid k)) (shl w lo 0)
      ≡ (hi * 2 ^ j + mid) * 2 ^ k + lo
join_three w i j k hi mid lo h m l le =
    rw
      (
        shl_fits w i (k + j) hi h (omega arith),
        shl_fits w j k mid m (omega arith),
        shl-zero w lo low_fits,
        joined_high j k hi mid m,
      )
      (bit_or_disjoint k (hi * 2 ^ j + mid) lo l)
  where
    low_fits : lo < 2 ^ w
    low_fits = omega (arith, pow-le-pow_right {n = 2} (omega arith) {i = k} {j = w} (omega arith))

-- All ones in both fields is all ones in the packed word.
pub packed_ones : (j k : ℕ) → (2 ^ j - 1) * 2 ^ k + (2 ^ k - 1) ≡ 2 ^ (j + k) - 1
packed_ones j k = rw (pow-add j k) (omega (arith, pow_pos k, ap (λ (t : ℕ). t * 2 ^ k) one_more))
  where
    one_more : 2 ^ j - 1 + 1 ≡ 2 ^ j
    one_more = omega (arith, pow_pos j)

-- The complement of `k` low ones, in a word of `j + k` bits.
pub bit_not-ones : (j k : ℕ) → bit_not (j + k) (2 ^ k - 1) ≡ (2 ^ j - 1) * 2 ^ k
unfolding bit_not
bit_not-ones j k = omega (arith, packed_ones j k)

-- No bit of the high field is set exactly when the word fits the low field.
pub high_bits_clear :
    (j k x : ℕ) → x < 2 ^ (j + k) → (bit_and x ((2 ^ j - 1) * 2 ^ k) ≡ 0) ↔ (x < 2 ^ k)
high_bits_clear j k x h =
    rw (bit_and_shifted k x (2 ^ j - 1), bit_and_low j (x / 2 ^ k), mod-eq_of_lt high_fits)
      (
        λ e. omega (arith, div-add-mod' x (2 ^ k), mod-lt x (pow_pos k)),
        λ fits. ap (λ (t : ℕ). t * 2 ^ k) (div-eq_of_lt fits) ∙ omega arith,
      )
  where
    high_fits : x / 2 ^ k < 2 ^ j
    high_fits = (div-lt_iff_lt-mul (pow_pos k)).1 (rw (pow-add j k) at h)
