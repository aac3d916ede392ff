-- ===== src/Base32/Interface/Decode.antt =====
-- What `decode` returns for each input.
use ferroid.Common.{
  ℕ, suc, ◌*◌, ◌%◌, ◌^◌, ◌≤◌, ◌<◌, ◌≡◌, inl, inr, refl, ap, arith, List, [], ◌∷◌, map, length, Bool,
  false, Bool-cases, if◌then◌else◌, ◌==◌, Option, none, some,
}
use ferroid.Base32.Error.{
  Decoded, decode_invalid_len, decode_invalid_ascii, decode_overflow, ok, err, panicked,
}
use ferroid.Base32.Crockford.Tables.{decode_char, decode_char_cases, invalid_value}
use ferroid.Base32.Crockford.Digits.{value}
use ferroid.Base32.Crockford.Decode.{decode_chunks}
use ferroid.Base32.Crockford.Decode.Errors.{AreBytes, first_invalid, with_first, decode_base32_lem}
use ferroid.Base32.Crockford.Decode.Value.{IsEncoded, decode_chunks-value}
use ferroid.Base32.Interface.{base32_size, inner_decode, decode}

abbrev FirstInvalidSpec : List ℕ → Option (ℕ × ℕ) → Type 0
FirstInvalidSpec bytes none = IsEncoded bytes
FirstInvalidSpec bytes (some _) = Unit

after_valid :
    (b : ℕ) (bs : List ℕ) (r : Option (ℕ × ℕ))
    → decode_char b < 32
    → FirstInvalidSpec bs r
    → FirstInvalidSpec (b ∷ bs) r
after_valid b bs none hb spec = (hb, spec)
after_valid b bs (some _) hb spec = tt

first_invalid-FirstInvalidSpec :
    (i : ℕ) (bytes : List ℕ) → AreBytes bytes → FirstInvalidSpec bytes (first_invalid i bytes)
first_invalid-FirstInvalidSpec i [] h = tt
first_invalid-FirstInvalidSpec i (b ∷ bs) (hb, h) =
    elim (Bool-cases (decode_char b == invalid_value)) [
      | inl e ↦ rw e tt
      | inr e ↦ rw e (
          after_valid b bs (first_invalid (suc i) bs) (ground (arith, decode_char_cases b hb))
            (first_invalid-FirstInvalidSpec (suc i) bs h))
    ]

-- The number that the characters stand for, checked by `valid`.
abbrev pub checked : (ℕ → Bool) → ℕ → Decoded
checked valid x = if valid x then ok x else err (decode_overflow x)

abbrev pub expected : (ℕ → Bool) → Option (ℕ × ℕ) → ℕ → Decoded
expected valid (some (byte, index)) x = err (decode_invalid_ascii byte index)
expected valid none x = checked valid x

-- Of an input of bytes, one of the wrong length is rejected with its length; one with an invalid byte
-- with the first such byte and its index; any other stands for the number that its digits write,
-- cut to the width of the type, which is returned where it is valid and rejected with it where not.
-- No input makes the decoder panic.
pub decode_lem :
    (size : ℕ) (valid : ℕ → Bool) (bytes : List ℕ)
    → 1 ≤ size
    → AreBytes bytes
    → decode size valid bytes ≡ (
        if length bytes == base32_size size
        then expected valid
            (first_invalid 0 bytes)
            (value 32 0 (map decode_char bytes) % 2 ^ (size * 8))
        else err (decode_invalid_len (length bytes)))
unfolding decode inner_decode
decode_lem size valid bytes pos h = elim (Bool-cases (length bytes == base32_size size)) [
  | inl e ↦
      rw (e, decode_base32_lem (size * 8) bytes h, decode, inner_decode)
        (branches (first_invalid 0 bytes) (first_invalid-FirstInvalidSpec 0 bytes h))
  | inr e ↦ rw (e, decode, inner_decode) refl
]
  where
    branches :
        (r : Option (ℕ × ℕ))
        → FirstInvalidSpec bytes r
        → elim (with_first r (decode_chunks (size * 8) 0 false bytes).0)
            as (λ (d : Decoded). Decoded) [
              | ok decoded ↦ if valid decoded then ok decoded else err (decode_overflow decoded)
              | err e ↦ err e
              | panicked ↦ panicked
            ]
          ≡ expected valid r (value 32 0 (map decode_char bytes) % 2 ^ (size * 8))
    branches none all =
        ap (checked valid)
          (decode_chunks-value (size * 8) 0 0 false bytes (omega arith) (omega arith) all)
    branches (some bi) all = refl
