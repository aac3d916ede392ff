-- ===== src/Base32/Interface/RoundTrip.antt =====
-- Encoding and then decoding.
use ferroid.Common.{
  ℕ, zero, suc, ◌+◌, ◌*◌, ◌/◌, ◌%◌, ◌^◌, ◌≤◌, ◌<◌, ◌≡◌, refl, ◌∙◌, arith, List, [], ◌∷◌, map,
  length, length-map, All, Bool, true, false, pow-add, if◌then◌else◌, ◌==◌, ==_iff, none,
}
use ferroid.Base32.Error.{ok, err, decode_overflow}
use native.Mathlib.Nat.{mod-eq_of_lt, pow-le-pow_right, pow-suc}
use ferroid.Base32.Crockford.Tables.{
  encode_char, encode_char-lt, decode_char, decode_char-encode_char, invalid_value,
}
use ferroid.Base32.Crockford.Digits.{
  digits, digits-lt, length-digits, value, value-digits, to_be_bytes, to_be_bytes-lt,
  length-to_be_bytes, value-to_be_bytes,
}
use ferroid.Base32.Crockford.Encode.Digits.{encode_base32_lem}
use ferroid.Base32.Crockford.Decode.Errors.{AreBytes, first_invalid}
use ferroid.Base32.Interface.{base32_size, inner_encode_to_buf, encode, decode}
use ferroid.Base32.Interface.Decode.{decode_lem}

-- The text of an ID is its number in base 32, in as many digits as the type needs.
pub encode_lem :
    (size x : ℕ) → x < 256 ^ size → encode size x ≡ map encode_char (digits (base32_size size) x)
unfolding encode inner_encode_to_buf base32_size
encode_lem size x h =
    encode_base32_lem (to_be_bytes size x) ((size * 8 + 4) / 5) (to_be_bytes-lt size x)
      (omega (arith, length-to_be_bytes size x)) (omega (arith, length-to_be_bytes size x))
    ∙ rw (value-to_be_bytes size x h) refl

-- Texts of digits.
abbrev AreDigits : List ℕ → Type 0
AreDigits = All (λ d. d < 32)

text-AreBytes : (ds : List ℕ) → AreDigits ds → AreBytes (map encode_char ds)
text-AreBytes [] h = tt
text-AreBytes (d ∷ ds) (hd, h) = (omega (arith, encode_char-lt d hd), text-AreBytes ds h)

map-decode_char-encode_char :
    (ds : List ℕ) → AreDigits ds → map decode_char (map encode_char ds) ≡ ds
map-decode_char-encode_char [] h = refl
map-decode_char-encode_char (d ∷ ds) (hd, h) =
    rw (decode_char-encode_char d hd, map-decode_char-encode_char ds h) refl

first_invalid_of_text :
    (i : ℕ) (ds : List ℕ) → AreDigits ds → first_invalid i (map encode_char ds) ≡ none
first_invalid_of_text i [] h = refl
first_invalid_of_text i (d ∷ ds) (hd, h) =
    rw (decode_char-encode_char d hd, valid_digit) (first_invalid_of_text (suc i) ds h)
  where
    valid_digit : (d == invalid_value) ≡ false
    valid_digit = ground arith

suc_times : (n k : ℕ) → suc n * k ≡ k + n * k
suc_times n k = omega arith

pub bytes_pow : (n : ℕ) → 256 ^ n ≡ 2 ^ (n * 8)
bytes_pow zero = omega arith
bytes_pow (suc n) = rw (pow-suc, bytes_pow n, suc_times n 8, pow-add 8 (n * 8)) (omega arith)

digits_pow : (n : ℕ) → 32 ^ n ≡ 2 ^ (n * 5)
digits_pow zero = omega arith
digits_pow (suc n) = rw (pow-suc, digits_pow n, suc_times n 5, pow-add 5 (n * 5)) (omega arith)

pub enough_digits : (size x : ℕ) → x < 256 ^ size → x < 32 ^ base32_size size
unfolding base32_size
enough_digits size x h =
    let le : 2 ^ (size * 8) ≤ 2 ^ ((size * 8 + 4) / 5 * 5) =
      pow-le-pow_right (omega arith) (omega arith) in
    omega (arith, bytes_pow size, digits_pow ((size * 8 + 4) / 5))

-- Decoding the text of an ID gives the ID back, or the overflow error with the ID where it is not
-- valid, in a type of at least one byte.
pub decode-encode :
    (size : ℕ) (valid : ℕ → Bool) (x : ℕ)
    → 1 ≤ size
    → x < 256 ^ size
    → decode size valid (encode size x) ≡ (if valid x then ok x else err (decode_overflow x))
decode-encode size valid x pos h = rw (encode_lem size x h) (
    decode_lem size valid (map encode_char (digits (base32_size size) x)) pos (text-AreBytes ds are)
    ∙ rw (right_length, first_invalid_of_text 0 ds are, map-decode_char-encode_char ds are, same)
        refl)
  where
    ds : List ℕ
    ds = digits (base32_size size) x

    are : AreDigits ds
    are = digits-lt (base32_size size) x

    right_length : (length (map encode_char ds) == base32_size size) ≡ true
    right_length = (==_iff _ _).1 (length-map ds encode_char ∙ length-digits (base32_size size) x)

    same : value 32 0 ds % 2 ^ (size * 8) ≡ x
    same =
        rw (value-digits (base32_size size) x (enough_digits size x h))
          (mod-eq_of_lt (rw (bytes_pow size) at h))
