-- ===== src/Base32/Ulid.antt =====
-- `Base32UlidExt` of crates/ferroid/src/base32/ulid.rs for a ULID type of `size` bytes, its two formatters,
-- and what the ULID types do with them and with strings, at the end of the macro in
-- crates/ferroid/src/id/ulid.rs. A string is its bytes.
pub mod Sorted
use ferroid.Common.{ℕ, Bool, true, false, List, ◌++◌, ◌==◌, Ordering, cmp_bytes, if◌then◌else◌}
use ferroid.Id.Ulid.{UlidId}
use ferroid.Base32.Error.{Decoded, decode_overflow, ok, err, panicked}
use ferroid.Base32.Interface.{inner_encode_to_buf, inner_decode}
use ferroid.Base32.Formatter.{same_bytes}

pub record Formatter : Type 0 where
  pub buf : List ℕ

-- The formatter over a buffer of the caller, which nobody else writes while the formatter lives.
pub record FormatterRef : Type 0 where
  pub buf : List ℕ

unfoldable pub new : ℕ → ℕ → Formatter
new size id = record { buf = inner_encode_to_buf size id }

-- The formatter, and the buffer of the caller as the call leaves it: the encoder writes each of its bytes,
-- whatever it held.
unfoldable pub new_ref : ℕ → ℕ → List ℕ → FormatterRef × List ℕ
new_ref size id buf = let buf' = inner_encode_to_buf size id in (record { buf = buf' }, buf')

unfoldable pub as_bytes : Formatter → List ℕ
as_bytes f = f.buf

unfoldable pub as_str : Formatter → List ℕ
unfolding as_bytes
as_str f = as_bytes f

unfoldable pub as_string : Formatter → List ℕ
unfolding as_bytes
as_string f = as_bytes f

unfoldable pub into_inner : Formatter → List ℕ
into_inner f = f.buf

-- Onto what was written before.
unfoldable pub fmt : Formatter → List ℕ → List ℕ
unfolding as_str
fmt f written = written ++ as_str f

unfoldable pub eq : Formatter → List ℕ → Bool
unfolding as_str
eq f other = same_bytes (as_str f) other

-- The derived order.
unfoldable pub cmp : Formatter → Formatter → Ordering
cmp f g = cmp_bytes f.buf g.buf

unfoldable pub ref_as_bytes : FormatterRef → List ℕ
ref_as_bytes f = f.buf

unfoldable pub ref_as_str : FormatterRef → List ℕ
unfolding ref_as_bytes
ref_as_str f = ref_as_bytes f

unfoldable pub ref_as_string : FormatterRef → List ℕ
unfolding ref_as_bytes
ref_as_string f = ref_as_bytes f

unfoldable pub ref_fmt : FormatterRef → List ℕ → List ℕ
unfolding ref_as_str
ref_fmt f written = written ++ ref_as_str f

unfoldable pub ref_eq : FormatterRef → List ℕ → Bool
unfolding ref_as_str
ref_eq f other = same_bytes (ref_as_str f) other

module _ (size : ℕ) (o : UlidId) where
  unfoldable pub encode : ℕ → Formatter
  unfolding new
  encode id = new size id

  unfoldable pub encode_to_buf : ℕ → List ℕ → FormatterRef × List ℕ
  unfolding new_ref
  encode_to_buf id buf = new_ref size id buf

  unfoldable pub decode : List ℕ → Decoded
  unfolding inner_decode
  decode input = elim (inner_decode size input) [
    | ok decoded ↦ if o.is_valid decoded then ok decoded else err (decode_overflow decoded)
    | err e ↦ err e
    | panicked ↦ panicked
  ]

  -- `Display` of an ID.
  unfoldable pub display : ℕ → List ℕ → List ℕ
  unfolding encode fmt
  display id written = fmt (encode id) written

  -- `String::from`
  unfoldable pub into_string : ℕ → List ℕ
  unfolding encode as_string
  into_string id = as_string (encode id)

  unfoldable pub try_from : List ℕ → Decoded
  unfolding decode
  try_from s = decode s

  unfoldable pub from_str : List ℕ → Decoded
  unfolding decode
  from_str s = decode s

  -- `==` of an ID and a string; the decoder does not panic.
  unfoldable pub eq_str : ℕ → List ℕ → Bool
  unfolding decode
  eq_str id other = elim (decode other) [ ok decoded ↦ decoded == id | _ ↦ false ]
