-- ===== src/Base32/Error.antt =====
-- `Error` of crates/ferroid/src/base32/error.rs, and the results of the decoders.
use ferroid.Common.{ℕ}

pub data Error : Type 0 where
  decode_invalid_len : (len : ℕ) → Error
  decode_invalid_ascii : (byte index : ℕ) → Error
  decode_overflow : (id : ℕ) → Error

-- `panicked` is the `unreachable!` of `handle_error`, which is no value of the source.
pub data Decoded : Type 0 where
  ok : (value : ℕ) → Decoded
  err : Error → Decoded
  panicked : Decoded
