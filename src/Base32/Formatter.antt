-- ===== src/Base32/Formatter.antt =====
-- The formatter of crates/ferroid/src/base32/snowflake.rs, which holds the encoded buffer, and the one
-- over a buffer of the caller, and what the ID types do with it and with strings, at the end of the macro
-- in crates/ferroid/src/id/snowflake.rs. A string is its bytes.
pub mod Strings
use ferroid.Common.{ℕ, Bool, true, false, List, [], ◌∷◌, ◌++◌, ◌&&◌, ◌==◌, Ordering, cmp_bytes}
use ferroid.Base32.Error.{Decoded, ok}
use ferroid.Base32.Interface.{inner_encode_to_buf, decode}

pub record Formatter : Type 0 where
  pub buf : List ℕ

-- The formatter over a buffer of the caller, which nobody else writes while the formatter lives.
pub record FormatterRef : Type 0 where
  pub buf : List ℕ

unfoldable pub new : ℕ → ℕ → Formatter
new size id = record { buf = inner_encode_to_buf size id }

-- The formatter, and the buffer of the caller as the call leaves it: the encoder writes each of its bytes,
-- whatever it held.
unfoldable pub new_ref : ℕ → ℕ → List ℕ → FormatterRef × List ℕ
new_ref size id buf = let buf' = inner_encode_to_buf size id in (record { buf = buf' }, buf')

unfoldable pub as_bytes : Formatter → List ℕ
as_bytes f = f.buf

unfoldable pub as_str : Formatter → List ℕ
unfolding as_bytes
as_str f = as_bytes f

unfoldable pub as_string : Formatter → List ℕ
unfolding as_bytes
as_string f = as_bytes f

-- Onto what was written before.
unfoldable pub fmt : Formatter → List ℕ → List ℕ
unfolding as_str
fmt f written = written ++ as_str f

abbrev pub same_bytes : List ℕ → List ℕ → Bool
same_bytes [] [] = true
same_bytes [] (b ∷ ys) = false
same_bytes (a ∷ xs) [] = false
same_bytes (a ∷ xs) (b ∷ ys) = (a == b) && same_bytes xs ys

unfoldable pub eq : Formatter → List ℕ → Bool
unfolding as_str
eq f other = same_bytes (as_str f) other

-- The derived order.
unfoldable pub cmp : Formatter → Formatter → Ordering
cmp f g = cmp_bytes f.buf g.buf

unfoldable pub ref_as_bytes : FormatterRef → List ℕ
ref_as_bytes f = f.buf

unfoldable pub ref_as_str : FormatterRef → List ℕ
unfolding ref_as_bytes
ref_as_str f = ref_as_bytes f

unfoldable pub ref_as_string : FormatterRef → List ℕ
unfolding ref_as_bytes
ref_as_string f = ref_as_bytes f

unfoldable pub ref_fmt : FormatterRef → List ℕ → List ℕ
unfolding ref_as_str
ref_fmt f written = written ++ ref_as_str f

unfoldable pub ref_eq : FormatterRef → List ℕ → Bool
unfolding ref_as_str
ref_eq f other = same_bytes (ref_as_str f) other

-- `encode_to_buf` of an ID.
unfoldable pub encode_to_buf : ℕ → ℕ → List ℕ → FormatterRef × List ℕ
unfolding new_ref
encode_to_buf size id buf = new_ref size id buf

module _ (size : ℕ) (valid : ℕ → Bool) where
  -- `Display` of an ID.
  unfoldable pub display : ℕ → List ℕ → List ℕ
  unfolding new fmt
  display id written = fmt (new size id) written

  -- `String::from`
  unfoldable pub into_string : ℕ → List ℕ
  unfolding new as_string
  into_string id = as_string (new size id)

  -- `from_str` and `try_from` of a string.
  unfoldable pub from_str : List ℕ → Decoded
  from_str s = decode size valid s

  -- `==` of an ID and a string; the decoder does not panic.
  unfoldable pub eq_str : ℕ → List ℕ → Bool
  eq_str id other = elim (decode size valid other) [ ok decoded ↦ decoded == id | _ ↦ false ]
