-- ===== src/Base32/Interface.antt =====
-- `Base32Ext` of crates/ferroid/src/base32/interface.rs, and `encode` and `decode` of its two
-- extensions, base32/snowflake.rs and base32/ulid.rs. An unsigned type is given by its `SIZE` in
-- bytes; `valid` is the `is_valid` of the ID type. The formatters hold the encoded buffer.
pub mod Decode
pub mod RoundTrip
pub mod Sorted
pub mod Ids
use ferroid.Common.{ℕ, ◌+◌, ◌*◌, ◌/◌, Bool, List, length, if◌then◌else◌, ◌==◌}
use ferroid.Base32.Error.{Error, Decoded, decode_invalid_len, decode_overflow, ok, err, panicked}
use ferroid.Base32.Crockford.Digits.{to_be_bytes}
use ferroid.Base32.Crockford.Encode.{encode_base32}
use ferroid.Base32.Crockford.Decode.{decode_base32}

-- `(bytes * 8).div_ceil(5)`
unfoldable pub base32_size : ℕ → ℕ
base32_size bytes = (bytes * 8 + 4) / 5

-- The buffer that the call leaves.
unfoldable pub inner_encode_to_buf : ℕ → ℕ → List ℕ
unfolding base32_size
inner_encode_to_buf size id = encode_base32 (to_be_bytes size id) (base32_size size)

unfoldable pub encode : ℕ → ℕ → List ℕ
unfolding inner_encode_to_buf
encode size id = inner_encode_to_buf size id

unfoldable pub inner_decode : ℕ → List ℕ → Decoded
unfolding base32_size
inner_decode size bytes =
    if length bytes == base32_size size
    then decode_base32 (size * 8) bytes
    else err (decode_invalid_len (length bytes))

unfoldable pub decode : ℕ → (ℕ → Bool) → List ℕ → Decoded
unfolding inner_decode
decode size valid bytes = elim (inner_decode size bytes) [
  | ok decoded ↦ if valid decoded then ok decoded else err (decode_overflow decoded)
  | err e ↦ err e
  | panicked ↦ panicked
]
