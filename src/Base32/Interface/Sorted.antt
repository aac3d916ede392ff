-- ===== src/Base32/Interface/Sorted.antt =====
-- Texts sort as the numbers that they stand for.
use ferroid.Common.{
  ℕ, zero, suc, ◌/◌, ◌%◌, ◌^◌, ◌<◌, ◌≡◌, refl, ◌⊎◌, inl, inr, arith, List, [], ◌∷◌, ◌++◌, map, All,
  ltb, every_below, every_below_sound, leb, ◌||◌,
}
use ferroid.Base32.Crockford.Tables.{encode_char}
use ferroid.Base32.Crockford.Digits.{digits, digits-lt}
use ferroid.Base32.Interface.{base32_size, encode}
use ferroid.Base32.Interface.RoundTrip.{encode_lem, enough_digits}
use native.Mathlib.Nat.{div-lt_iff_lt-mul, pow-suc}

-- The order of byte strings of one length: at the first place where they differ.
pub data IsBefore : List ℕ → List ℕ → Type 0 where
  here : (a b : ℕ) (xs ys : List ℕ) → a < b → IsBefore (a ∷ xs) (b ∷ ys)
  there : (a : ℕ) (xs ys : List ℕ) → IsBefore xs ys → IsBefore (a ∷ xs) (a ∷ ys)

IsBefore-append : (xs ys us vs : List ℕ) → IsBefore xs ys → IsBefore (xs ++ us) (ys ++ vs)
IsBefore-append _ _ us vs (here a b xs ys h) = here a b (xs ++ us) (ys ++ vs) h
IsBefore-append _ _ us vs (there a xs ys h) =
    there a (xs ++ us) (ys ++ vs) (IsBefore-append xs ys us vs h)

same_prefix : (xs us vs : List ℕ) → IsBefore us vs → IsBefore (xs ++ us) (xs ++ vs)
same_prefix [] us vs h = h
same_prefix (x ∷ xs) us vs h = there x (xs ++ us) (xs ++ vs) (same_prefix xs us vs h)

by_quotient : (x y : ℕ) → x < y → (x / 32 < y / 32) ⊎ ((x / 32 ≡ y / 32) × (x % 32 < y % 32))
by_quotient x y h = ground arith

digits-IsBefore : (n x y : ℕ) → x < y → y < 32 ^ n → IsBefore (digits n x) (digits n y)
unfolding digits
digits-IsBefore zero x y h fits = absurd (omega arith)
digits-IsBefore (suc n) x y h fits = elim (by_quotient x y h) [
  | inl lower ↦ IsBefore-append _ _ _ _ (
      digits-IsBefore n (x / 32) (y / 32) lower
        ((div-lt_iff_lt-mul {k = 32} (omega arith)).1 (rw pow-suc at fits)))
  | inr (same, lower) ↦ rw same (same_prefix _ _ _ (here _ _ _ _ lower))
]

encode_char_mono : (v w : ℕ) → v < w → w < 32 → encode_char v < encode_char w
unfolding encode_char every_below
encode_char_mono v w h bound =
    let row =
      every_below_sound 32
        (λ b. every_below 32 (λ a. leb b a || ltb (encode_char a) (encode_char b))) w refl bound in
    let entry =
      every_below_sound 32 (λ a. leb w a || ltb (encode_char a) (encode_char w)) v row
        (omega arith) in
    ground (arith, entry)

text-IsBefore :
    (ds es : List ℕ)
    → IsBefore ds es
    → All (λ d. d < 32) es
    → IsBefore (map encode_char ds) (map encode_char es)
text-IsBefore _ _ (here a b xs ys h) (he, _) = here _ _ _ _ (encode_char_mono a b h he)
text-IsBefore _ _ (there a xs ys h) (he, hes) = there _ _ _ (text-IsBefore xs ys h hes)

-- Of two IDs of a type the text of the lower one comes first in the order of byte strings.
pub encode-IsBefore :
    (size x y : ℕ) → x < y → y < 256 ^ size → IsBefore (encode size x) (encode size y)
encode-IsBefore size x y h fits =
    rw (encode_lem size x (omega arith), encode_lem size y fits)
      (text-IsBefore _ _ (digits-IsBefore (base32_size size) x y h (enough_digits size y fits))
        (digits-lt _ y))
