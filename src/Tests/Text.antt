-- ===== src/Tests/Text.antt =====
-- The text form.
use ferroid.Common.{
  Bool, ℕ, ◌*◌, ◌%◌, ◌^◌, ◌≡◌, refl, arith, List, [], ◌∷◌, map, length, if◌then◌else◌, ◌==◌, shl,
  shr,
}
use ferroid.Id.SnowflakeLayout
use ferroid.Base32.Error.{ok, err, decode_overflow, decode_invalid_len}
use ferroid.Base32.Crockford.Tables.{decode_char, encode_char}
use ferroid.Base32.Crockford.Digits.{digits, value, to_be_bytes}
use ferroid.Base32.Crockford.Encode.{encode_base32}
use ferroid.Base32.Crockford.Encode.Digits.{encode_base32_lem}
use ferroid.Base32.Crockford.Decode.Errors.{first_invalid}
use ferroid.Base32.Interface.{encode, decode, base32_size}
use ferroid.Base32.Interface.Decode.{expected, decode_lem}
use ferroid.Base32.Interface.RoundTrip.{decode-encode}

-- "000000000001A"
abbrev forty_two : List ℕ
forty_two =
    b'0' ∷ b'0' ∷ b'0' ∷ b'0' ∷ b'0' ∷ b'0' ∷ b'0' ∷ b'0' ∷ b'0' ∷ b'0' ∷ b'0' ∷ b'1' ∷ b'A' ∷ []

encodes_forty_two : encode 8 42 ≡ forty_two
unfolding encode encode_base32 encode_char base32_size shl shr to_be_bytes
encodes_forty_two = refl

abbrev valid : ℕ → Bool
valid = SnowflakeLayout.is_valid SnowflakeLayout.twitter

decode-encode_example :
    decode 8 valid (encode 8 (2 ^ 63))
    ≡ (if valid (2 ^ 63) then ok (2 ^ 63) else err (decode_overflow (2 ^ 63)))
decode-encode_example = decode-encode 8 valid (2 ^ 63) (omega arith) (omega arith)

decode_lem_example : decode 8 valid forty_two ≡ (
    if length forty_two == base32_size 8
    then expected valid
        (first_invalid 0 forty_two)
        (value 32 0 (map decode_char forty_two) % 2 ^ (8 * 8))
    else err (decode_invalid_len (length forty_two)))
decode_lem_example = decode_lem 8 valid forty_two (omega arith) (omega arith)

encode_base32_lem_example :
    encode_base32 (255 ∷ 1 ∷ []) 4 ≡ map encode_char (digits 4 (value 256 0 (255 ∷ 1 ∷ [])))
encode_base32_lem_example =
    encode_base32_lem (255 ∷ 1 ∷ []) 4 (omega arith) (omega arith) (omega arith)
