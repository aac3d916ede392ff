-- ===== src/Base32/Formatter/Strings.antt =====
-- IDs, their strings and their formatters compare alike.
use ferroid.Common.{
  ℕ, ◌^◌, ◌≤◌, ◌<◌, ◌≡◌, ◌∙◌, refl, arith, Bool, true, List, [], ◌∷◌, ◌++◌, inl, inr, compare,
  Ordering, compare_cases, cmp_bytes, lt_compare, gt_compare, ◌==◌,
}
use ferroid.Base32.Error.{ok}
use ferroid.Base32.Interface.{encode, decode, inner_encode_to_buf}
use ferroid.Base32.Interface.RoundTrip.{decode-encode}
use ferroid.Base32.Interface.Sorted.{IsBefore, here, there, encode-IsBefore}
use ferroid.Base32.Formatter.{
  new, as_bytes, as_str, as_string, cmp, display, fmt, into_string, from_str, eq_str, eq,
  encode_to_buf, new_ref, ref_as_str, ref_as_bytes, ref_fmt, ref_eq,
}

same_number : (n : ℕ) → compare n n ≡ Ordering.eq
same_number n = ground arith

cmp_bytes-same : (xs : List ℕ) → cmp_bytes xs xs ≡ Ordering.eq
unfolding cmp_bytes
cmp_bytes-same [] = refl
cmp_bytes-same (x ∷ xs) = rw (same_number x, cmp_bytes) (cmp_bytes-same xs)

cmp_bytes-before : (xs ys : List ℕ) → IsBefore xs ys → cmp_bytes xs ys ≡ Ordering.lt
unfolding cmp_bytes
cmp_bytes-before _ _ (here a b xs ys h) = rw (lt_compare a b h, cmp_bytes) refl
cmp_bytes-before _ _ (there a xs ys h) = rw (same_number a, cmp_bytes) (cmp_bytes-before xs ys h)

cmp_bytes-after : (xs ys : List ℕ) → IsBefore ys xs → cmp_bytes xs ys ≡ Ordering.gt
unfolding cmp_bytes
cmp_bytes-after _ _ (here a b xs ys h) = rw (gt_compare b a h, cmp_bytes) refl
cmp_bytes-after _ _ (there a xs ys h) = rw (same_number a, cmp_bytes) (cmp_bytes-after ys xs h)

cmp-encode :
    (size x y : ℕ)
    → x < 256 ^ size
    → y < 256 ^ size
    → cmp_bytes (encode size x) (encode size y) ≡ compare x y
cmp-encode size x y hx hy = elim (compare_cases x y) [
  | inl (c, lt) ↦ rw c (cmp_bytes-before _ _ (encode-IsBefore size x y lt hy))
  | inr (inl (c, same)) ↦ rw (c, same) (cmp_bytes-same (encode size y))
  | inr (inr (c, gt)) ↦ rw c (cmp_bytes-after _ _ (encode-IsBefore size y x gt hx))
]

read_back :
    (size : ℕ) (valid : ℕ → Bool) (x : ℕ)
    → 1 ≤ size
    → x < 256 ^ size
    → valid x ≡ true
    → decode size valid (inner_encode_to_buf size x) ≡ ok x
unfolding encode
read_back size valid x pos h v = decode-encode size valid x pos h ∙ rw v refl

cmp-new :
    (size x y : ℕ) → x < 256 ^ size → y < 256 ^ size → cmp (new size x) (new size y) ≡ compare x y
unfolding cmp new encode
cmp-new size x y hx hy = cmp-encode size x y hx hy

-- Two valid words of a type of at least one byte: the string of the one is what `Display` writes, and what
-- stands in the buffer of the caller after `encode_to_buf`, whose formatter shows it and compares with
-- strings as the other formatter does; it is read back as the word, and equals the other word exactly when
-- the two are the same; their formatters are in the order of the words.
pub from_str-into_string :
    (size : ℕ) (valid : ℕ → Bool) (x y : ℕ) (buf written : List ℕ)
    → 1 ≤ size
    → x < 256 ^ size
    → y < 256 ^ size
    → valid x ≡ true
    → (display size valid x written ≡ written ++ into_string size valid x)
      × (ref_fmt (encode_to_buf size x buf).0 written ≡ display size valid x written)
      × ((encode_to_buf size x buf).1 ≡ into_string size valid x)
      × (ref_eq (encode_to_buf size x buf).0 (into_string size valid y)
          ≡ eq (new size x) (into_string size valid y))
      × (from_str size valid (into_string size valid x) ≡ ok x)
      × (eq_str size valid y (into_string size valid x) ≡ (x == y))
      × (cmp (new size x) (new size y) ≡ compare x y)
unfolding display into_string from_str eq_str new fmt as_str as_string as_bytes eq encode_to_buf
    new_ref ref_as_str ref_as_bytes ref_fmt ref_eq
from_str-into_string size valid x y buf written pos hx hy v =
    let back = read_back size valid x pos hx v in
    (refl, refl, refl, refl, back, rw (eq_str, into_string, back) refl, cmp-new size x y hx hy)
