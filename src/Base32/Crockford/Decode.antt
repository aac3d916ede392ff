-- ===== src/Base32/Crockford/Decode.antt =====
-- The decoder, `decode_base32`, into an unsigned integer of `w` bits.
pub mod Errors
pub mod Value
use ferroid.Common.{ℕ, suc, List, [], ◌∷◌, Bool, false, ◌||◌, if◌then◌else◌, ◌==◌, bit_or, shl}
use ferroid.Base32.Error.{Error, Decoded, decode_invalid_ascii, ok, err, panicked}
use ferroid.Base32.Crockford.Tables.{decode_char, invalid_value}

-- `(acc << BITS_PER_CHAR) | T::from(v)`
unfoldable pub shift_in : ℕ → ℕ → ℕ → ℕ
shift_in w acc v = bit_or (shl w acc 5) v

-- The loop over the remainder of fewer than four bytes.
unfoldable pub decode_remainder : ℕ → ℕ → Bool → List ℕ → ℕ × Bool
decode_remainder w acc has_error [] = (acc, has_error)
decode_remainder w acc has_error (b ∷ bs) =
    let v = decode_char b in
    decode_remainder w (shift_in w acc v) (has_error || v == invalid_value) bs

-- The loop over the chunks of four bytes.
unfoldable pub decode_chunks : ℕ → ℕ → Bool → List ℕ → ℕ × Bool
unfolding decode_remainder
decode_chunks w acc has_error (b0 ∷ b1 ∷ b2 ∷ b3 ∷ rest) =
    let v0 = decode_char b0 in
    let v1 = decode_char b1 in
    let v2 = decode_char b2 in
    let v3 = decode_char b3 in
    decode_chunks w (shift_in w (shift_in w (shift_in w (shift_in w acc v0) v1) v2) v3)
      (has_error || bit_or (bit_or (bit_or v0 v1) v2) v3 == invalid_value) rest
decode_chunks w acc has_error remainder = decode_remainder w acc has_error remainder

-- From index `i` on.
unfoldable pub handle_error : ℕ → List ℕ → Decoded
handle_error i [] = panicked
handle_error i (b ∷ bs) =
    if decode_char b == invalid_value
    then err (decode_invalid_ascii b i)
    else handle_error (suc i) bs

unfoldable pub decode_base32 : ℕ → List ℕ → Decoded
unfolding decode_chunks handle_error
decode_base32 w bytes =
    let (acc, has_error) = decode_chunks w 0 false bytes in
    if has_error then handle_error 0 bytes else ok acc
