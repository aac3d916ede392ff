-- ===== src/Base32/Crockford/Digits.antt =====
-- Numbers and their digits, as the encoder and the decoder are specified: big-endian bytes, and
-- base-32 digits from the most significant on.
use mathlib.Core.Path.{ap₂}
use native.Mathlib.Nat.{div-lt_iff_lt-mul, pow-suc, mul-le-mul_right, mul_assoc, mul_comm}
use ferroid.Common.{
  ℕ, zero, suc, ◌+◌, ◌*◌, ◌/◌, ◌%◌, ◌^◌, ◌<◌, ◌≡◌, refl, arith, List, [], ◌∷◌, ◌++◌, length,
  length-append, All, All-append, ◌∙◌,
}

-- `to_be_bytes` of an integer of `k` bytes.
unfoldable pub to_be_bytes : ℕ → ℕ → List ℕ
to_be_bytes zero x = []
to_be_bytes (suc k) x = to_be_bytes k (x / 256) ++ (x % 256) ∷ []

-- The `n` lowest base-32 digits.
unfoldable pub digits : ℕ → ℕ → List ℕ
digits zero x = []
digits (suc n) x = digits n (x / 32) ++ (x % 32) ∷ []

-- The number that a list of digits to base `r` continues `acc` to.
unfoldable pub value : ℕ → ℕ → List ℕ → ℕ
value r acc [] = acc
value r acc (d ∷ ds) = value r (acc * r + d) ds

pub value-append :
    (r acc : ℕ) (ds es : List ℕ) → value r acc (ds ++ es) ≡ value r (value r acc ds) es
unfolding value
value-append r acc [] es = refl
value-append r acc (d ∷ ds) es = value-append r (acc * r + d) ds es

pub length-to_be_bytes : (k x : ℕ) → length (to_be_bytes k x) ≡ k
unfolding to_be_bytes
length-to_be_bytes zero x = refl
length-to_be_bytes (suc k) x =
    length-append (to_be_bytes k (x / 256)) _ ∙ omega (arith, length-to_be_bytes k (x / 256))

pub to_be_bytes-lt : (k x : ℕ) → All (λ b. b < 256) (to_be_bytes k x)
unfolding to_be_bytes
to_be_bytes-lt zero x = tt
to_be_bytes-lt (suc k) x =
    All-append (λ b. b < 256) _ _ (to_be_bytes-lt k (x / 256)) (omega arith, tt)

shorter : (r n x : ℕ) → 0 < r → x < r ^ suc n → x / r < r ^ n
shorter r n x pos h = (div-lt_iff_lt-mul pos).1 (rw pow-suc at h)

pub value-to_be_bytes : (k x : ℕ) → x < 256 ^ k → value 256 0 (to_be_bytes k x) ≡ x
unfolding to_be_bytes value
value-to_be_bytes zero x h = omega arith
value-to_be_bytes (suc k) x h =
    value-append 256 0 (to_be_bytes k (x / 256)) _
    ∙ omega (arith, value-to_be_bytes k (x / 256) (shorter 256 k x (omega arith) h))

pub length-digits : (n x : ℕ) → length (digits n x) ≡ n
unfolding digits
length-digits zero x = refl
length-digits (suc n) x =
    length-append (digits n (x / 32)) _ ∙ omega (arith, length-digits n (x / 32))

pub digits-lt : (n x : ℕ) → All (λ d. d < 32) (digits n x)
unfolding digits
digits-lt zero x = tt
digits-lt (suc n) x = All-append (λ d. d < 32) _ _ (digits-lt n (x / 32)) (omega arith, tt)

pub value-digits : (n x : ℕ) → x < 32 ^ n → value 32 0 (digits n x) ≡ x
unfolding digits value
value-digits zero x h = omega arith
value-digits (suc n) x h =
    value-append 32 0 (digits n (x / 32)) _
    ∙ omega (arith, value-digits n (x / 32) (shorter 32 n x (omega arith) h))

-- `from_be_bytes`
abbrev pub from_be_bytes : List ℕ → ℕ
from_be_bytes = value 256 0

-- Strings of bytes of one length that stand for one number are equal.
value_injective :
    (a b : ℕ) (ds es : List ℕ)
    → All (λ d. d < 256) ds
    → All (λ d. d < 256) es
    → length ds ≡ length es
    → value 256 a ds ≡ value 256 b es
    → (a ≡ b) × (ds ≡ es)
unfolding value
value_injective a b [] [] hd he len same = (same, refl)
value_injective a b [] (e ∷ es) hd he len same = absurd (omega arith)
value_injective a b (d ∷ ds) [] hd he len same = absurd (omega arith)
value_injective a b (d ∷ ds) (e ∷ es) (hd, hds) (he, hes) len same =
    let (first, rest) =
      value_injective (a * 256 + d) (b * 256 + e) ds es hds hes (omega arith) same in
    (omega arith, ap₂ (λ (x : ℕ) (xs : List ℕ). x ∷ xs) (omega arith) rest)

pub value-lt :
    (ds : List ℕ) (a : ℕ) → All (λ d. d < 256) ds → value 256 a ds < (a + 1) * 256 ^ length ds
unfolding value
value-lt [] a h = omega arith
value-lt (d ∷ ds) a (hd, h) =
    rw (pow-suc, mul_comm (256 ^ length ds) 256, ← mul_assoc (a + 1) 256 (256 ^ length ds))
      (omega (
        arith,
        value-lt ds (a * 256 + d) h,
        mul-le-mul_right {m = a * 256 + d + 1} {n = (a + 1) * 256} (256 ^ length ds) (omega arith),
      ))

pub to_be_bytes-value :
    (bytes : List ℕ)
    → All (λ b. b < 256) bytes
    → to_be_bytes (length bytes) (from_be_bytes bytes) ≡ bytes
to_be_bytes-value bytes h =
    (value_injective 0 0 _ bytes (to_be_bytes-lt (length bytes) (from_be_bytes bytes)) h
      (length-to_be_bytes (length bytes) _)
      (value-to_be_bytes (length bytes) (from_be_bytes bytes)
        (omega (arith, value-lt bytes 0 h)))).1
