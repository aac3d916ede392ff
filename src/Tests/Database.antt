-- ===== src/Tests/Database.antt =====
-- The PostgreSQL extension.
use ferroid.Common.{
  ℕ, arith, zero, suc, ◌*◌, ◌+◌, ◌^◌, shr, shl, false, ◌≡◌, refl, true, List, [], ◌∷◌, ◌++◌, length,
  Option, none, some, Bool, Ordering,
}
use ferroid.Id.UlidLayout
use ferroid.Base32.Crockford.Digits.{value, to_be_bytes}
use ferroid.Postgres.Ulid.{Ulid, from_inner, from_inner-IsUlid, to_inner, cmp, timestamp_of}
use ferroid.Postgres.Signed.{ℤ, pos, ◌+ℤ◌}
use ferroid.Postgres.Sql.{
  Messages, IsMessages, returned, Pgrx, ulid_in, ulid_out, text_to_ulid, ulid_to_text,
  bytea_to_ulid, ulid_to_bytea, ulid_recv, ulid_send, ulid_is_valid, timestamptz_to_ulid,
  pg_epoch_offset_micros,
}
use ferroid.Postgres.Forms.{ulid_in-ulid_out}
use ferroid.Postgres.Gen.{gen_ulid, gen_ulid_mono, gen_ulid_lem}
use ferroid.Tests.Ulids.{begin, begin-IsCanonical, reading, begin_timestamp}
use ferroid.Postgres.Time.{IsPgrx, cut_ulid, timestamptz_to_ulid_lem}

abbrev get_bytes : List ℕ → ℕ → Option (List ℕ × List ℕ)
get_bytes xs zero = some ([], xs)
get_bytes [] (suc n) = none
get_bytes (x ∷ xs) (suc n) = elim (get_bytes xs n) [
  | none ↦ none
  | some (taken, rest) ↦ some (x ∷ taken, rest)
]

abbrev is_empty : List ℕ → Bool
is_empty [] = true
is_empty (x ∷ xs) = false

abbrev messages : Messages
messages = record { pq_getmsgbytes = get_bytes; pq_getmsgend = is_empty }

get_bytes_takes :
    (bytes rest : List ℕ) → get_bytes (bytes ++ rest) (length bytes) ≡ some (bytes, rest)
get_bytes_takes [] rest = refl
get_bytes_takes (x ∷ bytes) rest = rw (get_bytes_takes bytes rest) refl

messages-IsMessages : IsMessages messages
messages-IsMessages = record { takes = get_bytes_takes; ends = refl }

-- The ULID of the millisecond 1700000000000 with the random part 42.
abbrev word : ℕ
word = 1700000000000 * 2 ^ 80 + 42

ulid_in-ulid_out_example :
    (ulid_in (ulid_out (from_inner word)) ≡ returned (from_inner word))
    × (text_to_ulid (ulid_to_text (from_inner word)) ≡ returned (from_inner word))
    × (bytea_to_ulid (ulid_to_bytea (from_inner word)) ≡ returned (from_inner word))
    × (ulid_recv messages (some (ulid_send (from_inner word))) ≡ returned (from_inner word))
    × (ulid_is_valid (ulid_out (from_inner word)) ≡ true)
ulid_in-ulid_out_example =
    ulid_in-ulid_out messages (from_inner word) messages-IsMessages (from_inner-IsUlid word)

abbrev pgrx : Pgrx
pgrx = record {
  TimestampWithTimeZone = ℤ;
  Timestamp = ℤ;
  try_from_micros = λ z. some z;
  try_into_micros = λ z. some z;
  into_timestamp = λ z. z;
  from_timestamp = λ z. z;
}

pgrx-IsPgrx : IsPgrx pgrx
pgrx-IsPgrx = record { undone = λ z ts e. rw e refl }

-- The year 10889 and after: 2 ^ 48 milliseconds and one.
abbrev late : ℤ
late = pos 280528291910657000

timestamptz_to_ulid_lem_example :
    timestamptz_to_ulid pgrx late ≡ cut_ulid (late +ℤ pg_epoch_offset_micros)
timestamptz_to_ulid_lem_example = timestamptz_to_ulid_lem pgrx late late refl refl

late_is_one : cut_ulid (late +ℤ pg_epoch_offset_micros) ≡ returned (from_inner (2 ^ 80))
unfolding ◌+ℤ◌
late_is_one = refl

timestamp_of_word : timestamp_of (from_inner word) ≡ 1700000000000
unfolding timestamp_of from_inner UlidLayout.timestamp shr value to_be_bytes
    UlidLayout.timestamp_shift UlidLayout.random_shift UlidLayout.timestamp_mask shl
timestamp_of_word = refl

-- The thread's generator starts at 0; its clock is behind at the first reading.
gen_ulid_lem_example :
    ((u : Ulid) × (gen_ulid (reading 5 42) ≡ returned u) × (timestamp_of u ≡ 5))
    × ((u : Ulid) × (gen_ulid_mono (reading 0 7 ∷ reading 5 42 ∷ []) begin ≡ some (u, to_inner u))
        × (cmp (from_inner begin) u ≡ Ordering.lt))
gen_ulid_lem_example =
    gen_ulid_lem (reading 0 7 ∷ []) [] (reading 5 42) begin begin-IsCanonical (omega arith)
      (omega arith) (omega (arith, begin_timestamp))
