-- ===== src/Serde.antt =====
-- The serde adapters of crates/ferroid/src/serde/snowflake.rs (those of ulid.rs are the same), with the
-- errors of error.rs. The data format is a parameter: how it writes an integer and a string, and how
-- it reads them back.
pub mod RoundTrip
use ferroid.Common.{ℕ, ◌*◌, ◌^◌, ◌<◌, ◌≡◌, Bool, List, Option, none, some, if◌then◌else◌}
use ferroid.Base32.Error
use ferroid.Base32.Error.{Decoded, ok, err, panicked}
use ferroid.Base32.Interface.{encode, decode}

pub data SerdeError : Type 0 where
  decode_overflow : (id : ℕ) → SerdeError
  base32_error : Error.Error → SerdeError

-- `custom` is an error that the adapters hand to the format, `format_error` one of the format itself.
pub data Deserialized : Type 0 where
  value : (id : ℕ) → Deserialized
  custom : SerdeError → Deserialized
  format_error : Deserialized
  crashed : Deserialized

pub record Format : Type 1 where
  pub Data : Type 0
  pub serialize_int : ℕ → Data
  pub serialize_str : List ℕ → Data
  -- With the width of the integer type.
  pub deserialize_int : ℕ → Data → Option ℕ
  pub deserialize_str : Data → Option (List ℕ)

-- What is asked of a format: it reads back what it has written.
pub record IsFormat (f : Format) : Type 0 where
  pub int_back : (bits n : ℕ) → n < 2 ^ bits → f.deserialize_int bits (f.serialize_int n) ≡ some n
  pub str_back : (s : List ℕ) → f.deserialize_str (f.serialize_str s) ≡ some s

module _ (f : Format) (size : ℕ) (valid : ℕ → Bool) where
  unfoldable pub serialize_as_int : ℕ → f.Data
  serialize_as_int id = f.serialize_int id

  unfoldable pub deserialize_as_int : f.Data → Deserialized
  deserialize_as_int d = elim (f.deserialize_int (size * 8) d) [
    | none ↦ format_error
    | some n ↦ if valid n then value n else custom (decode_overflow n)
  ]

  unfoldable pub serialize_as_base32 : ℕ → f.Data
  serialize_as_base32 id = f.serialize_str (encode size id)

  unfoldable pub visit_str : List ℕ → Deserialized
  visit_str v = elim (decode size valid v) [
    | ok id ↦ value id
    | err e ↦ custom (base32_error e)
    | panicked ↦ crashed
  ]

  unfoldable pub deserialize_as_base32 : f.Data → Deserialized
  unfolding visit_str
  deserialize_as_base32 d = elim (f.deserialize_str d) [
    | none ↦ format_error
    | some v ↦ visit_str v
  ]
