-- ===== src/Postgres/Sql.antt =====
-- The SQL functions and casts of crates/pg-ferroid/src/lib.rs.
use ferroid.Common.{
  ℕ, ◌==◌, ◌≡◌, Bool, true, false, List, [], length, Option, none, some, if◌then◌else◌, ◌++◌,
}
use ferroid.Id.UlidLayout.{ulid, from_components, is_valid}
use ferroid.Base32.Error.{Error, Decoded, ok, err, panicked}
use ferroid.Base32.Interface.{encode, decode}
use ferroid.Postgres.Ulid.{
  Ulid, ulid_size, from_bytes, as_bytes, from_inner, to_inner, timestamp_of,
}
use ferroid.Postgres.Signed.{
  ℤ, pos, checked_add, checked_sub, checked_mul, checked_div, as_i64, try_unsigned,
}

-- The reports of `pgrx::error!`, and those that the server raises itself.
pub data Report : Type 0 where
  invalid_ulid : Error → Report
  invalid_ulid_text : Error → Report
  invalid_bytea_length : (expected got : ℕ) → Report
  null_internal_buffer : Report
  bad_message : Report
  ulid_timestamp_overflow : Report
  timestamp_underflow : Report
  timestamp_out_of_range : Report
  invalid_timestamp : Report
  timestamp_overflow : Report
  timestamp_before_unix_epoch : Report

-- How a call ends.
pub data Outcome {ℓ} (A : Type ℓ) : Type ℓ where
  returned : A → Outcome A
  raised : Report → Outcome A
  crashed : Outcome A

infixl 5 ◌>>=◌
abbrev pub ◌>>=◌ {ℓ κ} : {A : Type ℓ} {B : Type κ} → Outcome A → (A → Outcome B) → Outcome B
returned a >>= f = f a
raised r >>= f = raised r
crashed >>= f = crashed

-- `unwrap_or_else(|| pgrx::error!(…))`
abbrev pub or_raise {ℓ} : {A : Type ℓ} → Option A → Report → Outcome A
or_raise none r = raised r
or_raise (some a) r = returned a

-- `InnerULID::decode(…).map(ULID::from).unwrap_or_else(…)`
unfoldable pub from_decoded : (Error → Report) → Decoded → Outcome Ulid
unfolding from_inner
from_decoded report (ok id) = returned (from_inner id)
from_decoded report (err e) = raised (report e)
from_decoded report panicked = crashed

unfoldable pub ulid_in : List ℕ → Outcome Ulid
unfolding from_decoded
ulid_in input = from_decoded invalid_ulid (decode ulid_size (is_valid ulid) input)

-- The characters before the final zero byte.
unfoldable pub ulid_out : Ulid → List ℕ
ulid_out u = encode ulid_size (to_inner u)

unfoldable pub text_to_ulid : List ℕ → Outcome Ulid
unfolding from_decoded
text_to_ulid text = from_decoded invalid_ulid_text (decode ulid_size (is_valid ulid) text)

unfoldable pub ulid_to_text : Ulid → List ℕ
ulid_to_text u = encode ulid_size (to_inner u)

unfoldable pub ulid_is_valid : List ℕ → Bool
ulid_is_valid text = elim (decode ulid_size (is_valid ulid) text) [ ok _ ↦ true | _ ↦ false ]

unfoldable pub bytea_to_ulid : List ℕ → Outcome Ulid
unfolding from_bytes
bytea_to_ulid bytes =
    if length bytes == ulid_size
    then returned (from_bytes bytes)
    else raised (invalid_bytea_length ulid_size (length bytes))

unfoldable pub ulid_to_bytea : Ulid → List ℕ
unfolding as_bytes
ulid_to_bytea u = as_bytes u

unfoldable pub ulid_send : Ulid → List ℕ
unfolding ulid_to_bytea
ulid_send u = ulid_to_bytea u

-- The functions of the server that read a message: the bytes taken with what is left of it, and
-- whether nothing is left; a failure is a report of the server.
pub record Messages : Type 0 where
  pub pq_getmsgbytes : List ℕ → ℕ → Option (List ℕ × List ℕ)
  pub pq_getmsgend : List ℕ → Bool

-- What the server documents of them.
pub record IsMessages (m : Messages) : Type 0 where
  pub takes :
      (bytes rest : List ℕ) → m.pq_getmsgbytes (bytes ++ rest) (length bytes) ≡ some (bytes, rest)
  pub ends : m.pq_getmsgend [] ≡ true

-- `internal` is `none` for a NULL buffer.
unfoldable pub ulid_recv : Messages → Option (List ℕ) → Outcome Ulid
unfolding from_bytes
ulid_recv m internal = do
  buf ← or_raise internal null_internal_buffer
  (out, rest) ← or_raise (m.pq_getmsgbytes buf ulid_size) bad_message
  if m.pq_getmsgend rest then returned (from_bytes out) else raised bad_message

-- The times of pgrx: a point of time is an `i64` of microseconds since 2000-01-01, in a range that
-- pgrx checks; times without a zone convert by the zone of the session.
pub record Pgrx : Type 1 where
  pub TimestampWithTimeZone : Type 0
  pub Timestamp : Type 0
  pub try_from_micros : ℤ → Option TimestampWithTimeZone
  pub try_into_micros : TimestampWithTimeZone → Option ℤ
  pub into_timestamp : TimestampWithTimeZone → Timestamp
  pub from_timestamp : Timestamp → TimestampWithTimeZone

-- Microseconds from 1970-01-01 to 2000-01-01.
abbrev pub pg_epoch_offset_micros : ℤ
pg_epoch_offset_micros = pos 946684800000000

-- Whole milliseconds since 1970; `none` is for a time before.
unfoldable pub whole_millis : ℤ → Option ℕ
whole_millis unix_micros = elim (checked_div unix_micros (pos 1000)) [
  | none ↦ none
  | some v ↦ try_unsigned v
]

module _ (pg : Pgrx) where
  unfoldable pub ulid_to_timestamptz : Ulid → Outcome pg.TimestampWithTimeZone
  ulid_to_timestamptz u = do
    let ms = as_i64 (timestamp_of u)
    unix_micros ← or_raise (checked_mul ms (pos 1000)) ulid_timestamp_overflow
    pg_micros ← or_raise (checked_sub unix_micros pg_epoch_offset_micros) timestamp_underflow
    or_raise (pg.try_from_micros pg_micros) timestamp_out_of_range

  unfoldable pub timestamptz_to_ulid : pg.TimestampWithTimeZone → Outcome Ulid
  unfolding whole_millis
  timestamptz_to_ulid ts = do
    pg_micros ← or_raise (pg.try_into_micros ts) invalid_timestamp
    unix_micros ← or_raise (checked_add pg_micros pg_epoch_offset_micros) timestamp_overflow
    ms ← or_raise (whole_millis unix_micros) timestamp_before_unix_epoch
    returned (from_inner (from_components ulid ms 0))

  unfoldable pub ulid_to_timestamp : Ulid → Outcome pg.Timestamp
  unfolding ulid_to_timestamptz
  ulid_to_timestamp u = do ts ← ulid_to_timestamptz u; returned (pg.into_timestamp ts)

  unfoldable pub timestamp_to_ulid : pg.Timestamp → Outcome Ulid
  unfolding timestamptz_to_ulid
  timestamp_to_ulid ts = timestamptz_to_ulid (pg.from_timestamp ts)
