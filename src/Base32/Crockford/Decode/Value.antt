-- ===== src/Base32/Crockford/Decode/Value.antt =====
-- Which integer the decoder accumulates.
use native.Mathlib.Nat.{div-add-mod', mul_assoc, mod-lt, mod-mod_of_dvd, dvd-mul_right}
use ferroid.Common.{
  ℕ, ◌+◌, ◌-◌, ◌*◌, ◌/◌, ◌%◌, ◌^◌, ◌≤◌, ◌<◌, ◌≡◌, ap, sym, ◌∙◌, arith, List, [], ◌∷◌, map, All,
  Bool, ◌||◌, ◌==◌, bit_or, bit_or_disjoint, shl, pow-add, pow_pos, packed_low, packed-lt,
}
use mathlib.Core.Path.{subst}
use ferroid.Base32.Crockford.Tables.{decode_char, invalid_value}
use ferroid.Base32.Crockford.Digits.{value}
use ferroid.Base32.Crockford.Decode.{decode_remainder, decode_chunks, shift_in}

-- A digit shifted in below a remainder.
digit_below : (k x v : ℕ) → v < 32 → (x * 32 + v) % 2 ^ (k + 5) ≡ x % 2 ^ k * 32 + v
digit_below k x v h =
    ap (λ (t : ℕ). t % 2 ^ (k + 5)) split
    ∙ packed_low (k + 5) (x / 2 ^ k) (x % 2 ^ k * 32 + v)
        (packed-lt k 5 (x % 2 ^ k) v (mod-lt x (pow_pos k)) h)
  where
    split : x * 32 + v ≡ x / 2 ^ k * 2 ^ (k + 5) + (x % 2 ^ k * 32 + v)
    split =
        rw (pow-add k 5, ← mul_assoc (x / 2 ^ k) (2 ^ k) 32) (omega (arith, div-add-mod' x (2 ^ k)))

wider_first : (k x : ℕ) → x % 2 ^ (k + 5) % 2 ^ k ≡ x % 2 ^ k
wider_first k x = rw (pow-add k 5) (mod-mod_of_dvd (2 ^ k) x (dvd-mul_right (2 ^ k) (2 ^ 5)))

shift_in_wide :
    (k P v : ℕ) → v < 32 → shift_in (k + 5) (P % 2 ^ (k + 5)) v ≡ (P * 32 + v) % 2 ^ (k + 5)
unfolding shift_in shl
shift_in_wide k P v h = rw shifted (bit_or_disjoint 5 (P % 2 ^ k) v h ∙ sym (digit_below k P v h))
  where
    shifted : P % 2 ^ (k + 5) * 32 % 2 ^ (k + 5) ≡ P % 2 ^ k * 32
    shifted =
        ap (λ (t : ℕ). t % 2 ^ (k + 5)) (omega arith)
        ∙ digit_below k (P % 2 ^ (k + 5)) 0 (omega arith)
        ∙ omega (arith, wider_first k P)

shift_in_lem :
    (w P acc v : ℕ) → 5 ≤ w → acc ≡ P % 2 ^ w → v < 32 → shift_in w acc v ≡ (P * 32 + v) % 2 ^ w
shift_in_lem w P acc v wide same h = rw same (
    subst (λ t. shift_in t (P % 2 ^ t) v ≡ (P * 32 + v) % 2 ^ t) (omega arith)
      (shift_in_wide (w - 5) P v h))

-- All bytes are characters of the alphabet.
abbrev pub IsEncoded : List ℕ → Type 0
IsEncoded = All (λ b. decode_char b < 32)

remainder_value :
    (w P acc : ℕ) (has_error : Bool) (bytes : List ℕ)
    → 5 ≤ w
    → acc ≡ P % 2 ^ w
    → IsEncoded bytes
    → (decode_remainder w acc has_error bytes).0 ≡ value 32 P (map decode_char bytes) % 2 ^ w
unfolding decode_remainder value
remainder_value w P acc has_error [] wide same h = same
remainder_value w P acc has_error (b ∷ bs) wide same (hb, h) =
    remainder_value w (P * 32 + decode_char b) (shift_in w acc (decode_char b))
      (has_error || decode_char b == invalid_value) bs wide
      (shift_in_lem w P acc (decode_char b) wide same hb) h

-- In chunks or not, the decoder accumulates the number that the digits stand for, in its `w` bits.
pub decode_chunks-value :
    (w P acc : ℕ) (has_error : Bool) (bytes : List ℕ)
    → 5 ≤ w
    → acc ≡ P % 2 ^ w
    → IsEncoded bytes
    → (decode_chunks w acc has_error bytes).0 ≡ value 32 P (map decode_char bytes) % 2 ^ w
unfolding decode_chunks value
decode_chunks-value w P acc has_error [] wide same h =
    remainder_value w P acc has_error [] wide same h
decode_chunks-value w P acc has_error (a ∷ []) wide same h =
    remainder_value w P acc has_error (a ∷ []) wide same h
decode_chunks-value w P acc has_error (a ∷ b ∷ []) wide same h =
    remainder_value w P acc has_error (a ∷ b ∷ []) wide same h
decode_chunks-value w P acc has_error (a ∷ b ∷ c ∷ []) wide same h =
    remainder_value w P acc has_error (a ∷ b ∷ c ∷ []) wide same h
decode_chunks-value w P acc has_error (a ∷ b ∷ c ∷ d ∷ rest) wide same (ha, (hb, (hc, (hd, h)))) =
    let s1 = shift_in_lem w P acc (decode_char a) wide same ha in
    let s2 = shift_in_lem w _ _ (decode_char b) wide s1 hb in
    let s3 = shift_in_lem w _ _ (decode_char c) wide s2 hc in
    let s4 = shift_in_lem w _ _ (decode_char d) wide s3 hd in
    decode_chunks-value w
      ((((P * 32 + decode_char a) * 32 + decode_char b) * 32 + decode_char c) * 32 + decode_char d)
      (shift_in w
        (shift_in w (shift_in w (shift_in w acc (decode_char a)) (decode_char b)) (decode_char c))
        (decode_char d))
      (has_error
        || bit_or (bit_or (bit_or (decode_char a) (decode_char b)) (decode_char c)) (decode_char d)
          == invalid_value)
      rest wide s4 h
