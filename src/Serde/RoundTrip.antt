-- ===== src/Serde/RoundTrip.antt =====
-- Serializing and then deserializing.
use ferroid.Common.{ℕ, ◌*◌, ◌^◌, ◌≤◌, ◌<◌, ◌≡◌, refl, inl, inr, Bool, Bool-cases, if◌then◌else◌}
use ferroid.Base32.Error
use ferroid.Base32.Interface.{encode}
use ferroid.Base32.Interface.RoundTrip.{decode-encode, bytes_pow}
use ferroid.Serde.{
  value, custom, decode_overflow, base32_error, Format, IsFormat, serialize_as_int,
  deserialize_as_int, serialize_as_base32, deserialize_as_base32, visit_str,
}

visit_str-encode :
    (f : Format) (size : ℕ) (valid : ℕ → Bool) (x : ℕ)
    → 1 ≤ size
    → x < 256 ^ size
    → visit_str f size valid (encode size x)
      ≡ (if valid x then value x else custom (base32_error (Error.decode_overflow x)))
unfolding visit_str
visit_str-encode f size valid x pos h = elim (Bool-cases (valid x)) [
  | inl v ↦ rw (decode-encode size valid x pos h, v, visit_str) refl
  | inr v ↦ rw (decode-encode size valid x pos h, v, visit_str) refl
]

-- In a format that reads back what it has written, any word of a type of at least one byte, as a number
-- or as text: it comes back where the ID type calls it valid, and else the error names it.
pub deserialize-serialize :
    (f : Format)
    → IsFormat f
    → (size : ℕ) (valid : ℕ → Bool) (x : ℕ) → 1 ≤ size
    → x < 256 ^ size
    → (deserialize_as_int f size valid (serialize_as_int f size valid x)
        ≡ (if valid x then value x else custom (decode_overflow x)))
      × (deserialize_as_base32 f size valid (serialize_as_base32 f size valid x)
          ≡ (if valid x then value x else custom (base32_error (Error.decode_overflow x))))
unfolding deserialize_as_int serialize_as_int deserialize_as_base32 serialize_as_base32
deserialize-serialize f works size valid x pos h = (
  rw (deserialize_as_int, works.int_back (size * 8) x (rw (bytes_pow size) at h)) refl,
  rw (deserialize_as_base32, works.str_back (encode size x))
      (visit_str-encode f size valid x pos h),
)
