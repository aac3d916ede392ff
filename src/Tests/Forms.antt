-- ===== src/Tests/Forms.antt =====
-- Strings of IDs, and the serde adapters.
use ferroid.Common.{
  ℕ, ◌^◌, ◌≡◌, refl, arith, true, List, [], ◌∷◌, ◌++◌, none, some, compare, ◌==◌, if◌then◌else◌,
  Bool, bit_not, shl,
}
use ferroid.Id.SnowflakeLayout
use ferroid.Base32.Error
use ferroid.Base32.Error.{ok}
use ferroid.Base32.Formatter.{
  new, cmp, eq, encode_to_buf, ref_fmt, ref_eq, display, into_string, from_str, eq_str,
}
use ferroid.Base32.Formatter.Strings.{from_str-into_string}
use ferroid.Serde.{
  value, custom, decode_overflow, base32_error, Format, IsFormat, serialize_as_int,
  deserialize_as_int, serialize_as_base32, deserialize_as_base32,
}
use ferroid.Serde.RoundTrip.{deserialize-serialize}

abbrev valid : ℕ → Bool
valid = SnowflakeLayout.is_valid SnowflakeLayout.mastodon

mastodon_valid : valid 42 ≡ true
unfolding SnowflakeLayout.is_valid SnowflakeLayout.valid_mask bit_not shl
    SnowflakeLayout.timestamp_mask SnowflakeLayout.timestamp_shift SnowflakeLayout.machine_id_shift
    SnowflakeLayout.sequence_shift SnowflakeLayout.machine_id_mask SnowflakeLayout.sequence_mask
mastodon_valid = refl

from_str-into_string_example :
    (display 8 valid 42 (b'#' ∷ []) ≡ b'#' ∷ [] ++ into_string 8 valid 42)
    × (ref_fmt (encode_to_buf 8 42 []).0 (b'#' ∷ []) ≡ display 8 valid 42 (b'#' ∷ []))
    × ((encode_to_buf 8 42 []).1 ≡ into_string 8 valid 42)
    × (ref_eq (encode_to_buf 8 42 []).0 (into_string 8 valid 43)
        ≡ eq (new 8 42) (into_string 8 valid 43))
    × (from_str 8 valid (into_string 8 valid 42) ≡ ok 42)
    × (eq_str 8 valid 43 (into_string 8 valid 42) ≡ (42 == 43))
    × (cmp (new 8 42) (new 8 43) ≡ compare 42 43)
from_str-into_string_example =
    from_str-into_string 8 valid 42 43 [] (b'#' ∷ []) (omega arith) (omega arith) (omega arith)
      mastodon_valid

-- A format whose data are what was written.
data Data : Type 0 where
  int : (n : ℕ) → Data
  str : (s : List ℕ) → Data

abbrev format : Format
format = record {
  Data = Data;
  serialize_int = λ n. int n;
  serialize_str = λ s. str s;
  deserialize_int = λ bits d. elim d [ int n ↦ some n | str s ↦ none ];
  deserialize_str = λ d. elim d [ int n ↦ none | str s ↦ some s ];
}

format-IsFormat : IsFormat format
format-IsFormat = record { int_back = λ bits n h. refl; str_back = λ s. refl }

-- A word with its reserved bit set.
deserialize-serialize_example :
    (deserialize_as_int format 8 valid (serialize_as_int format 8 valid (2 ^ 63))
      ≡ (if valid (2 ^ 63) then value (2 ^ 63) else custom (decode_overflow (2 ^ 63))))
    × (deserialize_as_base32 format 8 valid (serialize_as_base32 format 8 valid (2 ^ 63)) ≡ (
        if valid (2 ^ 63)
        then value (2 ^ 63)
        else custom (base32_error (Error.decode_overflow (2 ^ 63)))))
deserialize-serialize_example =
    deserialize-serialize format format-IsFormat 8 valid (2 ^ 63) (omega arith) (omega arith)
