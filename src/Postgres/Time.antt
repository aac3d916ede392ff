-- ===== src/Postgres/Time.antt =====
-- ULIDs as points of time, and back.
use ferroid.Common.{
  ℕ, ◌+◌, ◌*◌, ◌/◌, ◌%◌, ◌^◌, ◌<◌, ◌≡◌, ◌∙◌, refl, ap, arith, true, some, none, ltb, lt→ltb, inl,
  inr, if◌then◌else◌, Bool-cases, ltb→lt,
}
use ferroid.Id.UlidLayout.{
  ulid, ulid-IsLayout, from_components, ulid-timestamp, ulid-from_components,
}
use ferroid.Postgres.Ulid.{Ulid, from_inner, timestamp_of, to_inner, timestamp-from_inner}
use ferroid.Postgres.Signed.{
  ℤ, pos, negsuc, balance, opposite, ◌+ℤ◌, ◌*ℤ◌, div_trunc, checked, checked_add, checked_sub,
  checked_mul, checked_div, as_i64, in_i64, try_unsigned,
}
use ferroid.Postgres.Sql.{
  Outcome, ◌>>=◌, returned, raised, timestamp_before_unix_epoch, or_raise, Pgrx,
  pg_epoch_offset_micros, ulid_to_timestamptz, timestamptz_to_ulid, timestamp_out_of_range,
  timestamp_overflow, whole_millis,
}

-- The microseconds that PostgreSQL counts for a Unix time in microseconds.
abbrev pub pg_micros_of : ℕ → ℤ
pg_micros_of unix_micros = balance unix_micros 946684800000000

-- What pgrx documents of the conversion from microseconds: it can be undone.
pub record IsPgrx (pg : Pgrx) : Type 0 where
  pub undone :
      (z : ℤ) (ts : pg.TimestampWithTimeZone)
      → pg.try_from_micros z ≡ some ts
      → pg.try_into_micros ts ≡ some z

timestamp_of-lt : (u : Ulid) → timestamp_of u < 2 ^ 48
unfolding timestamp_of
timestamp_of-lt u = rw (ulid-timestamp ulid ulid-IsLayout (to_inner u)) (omega arith)

as_i64-small : (x : ℕ) → x < 2 ^ 48 → as_i64 x ≡ pos x
unfolding as_i64
as_i64-small x h = ground arith

checked_mul-small : (x : ℕ) → x < 2 ^ 48 → checked_mul (pos x) (pos 1000) ≡ some (pos (x * 1000))
unfolding checked_mul checked ◌*ℤ◌
checked_mul-small x h = ground arith

checked_sub-small :
    (y : ℕ) → y < 2 ^ 62 → checked_sub (pos y) pg_epoch_offset_micros ≡ some (pg_micros_of y)
unfolding checked_sub checked ◌+ℤ◌ opposite balance
checked_sub-small y h = ground arith

checked_add-back :
    (y : ℕ) → y < 2 ^ 62 → checked_add (pg_micros_of y) pg_epoch_offset_micros ≡ some (pos y)
unfolding checked_add checked ◌+ℤ◌ balance
checked_add-back y h = ground arith

millis : (y : ℕ) → y < 2 ^ 63 → checked_div (pos y) (pos 1000) ≡ some (pos (y / 1000))
unfolding checked_div checked div_trunc
millis y h = ground arith

-- A negative sum is a time before 1970; division rounds it towards zero.
negative_millis :
    (n : ℕ) → n < 2 ^ 63 → checked_div (negsuc n) (pos 1000) ≡ some (balance 0 ((n + 1) / 1000))
unfolding checked_div checked div_trunc opposite balance
negative_millis n h = ground arith

-- The ULID of a millisecond, with no random part.
abbrev pub ulid_at : ℕ → Ulid
ulid_at ms = from_inner (from_components ulid ms 0)

-- By the Unix time in microseconds.
abbrev pub expected_ulid : ℤ → Outcome Ulid
expected_ulid (pos y) =
    if ltb y (2 ^ 63) then returned (ulid_at (y / 1000)) else raised timestamp_overflow
expected_ulid (negsuc n) =
    if ltb n 999 then returned (ulid_at 0) else raised timestamp_before_unix_epoch

-- The same in numbers: the timestamp, of 48 bits, stands above 80 random bits.
abbrev pub cut_ulid : ℤ → Outcome Ulid
cut_ulid (pos y) =
    if ltb y (2 ^ 63)
    then returned (from_inner (y / 1000 % 2 ^ 48 * 2 ^ 80))
    else raised timestamp_overflow
cut_ulid (negsuc n) =
    if ltb n 999 then returned (from_inner 0) else raised timestamp_before_unix_epoch

ulid_at-cut : (ms : ℕ) → ulid_at ms ≡ from_inner (ms % 2 ^ 48 * 2 ^ 80)
ulid_at-cut ms = ap from_inner (ulid-from_components ulid ulid-IsLayout ms 0 ∙ omega arith)

expected_ulid-cut_ulid : (y : ℤ) → expected_ulid y ≡ cut_ulid y
expected_ulid-cut_ulid (pos y) = rw (ulid_at-cut (y / 1000)) refl
expected_ulid-cut_ulid (negsuc n) = rw (ulid_at-cut 0) refl

-- Negative times fit `i64`.
abbrev IsPosOrFits : ℤ → Type 0
IsPosOrFits (pos y) = Unit
IsPosOrFits (negsuc n) = n < 2 ^ 63

-- The steps of the cast behind the reading of the time.
abbrev to_ulid : ℤ → Outcome Ulid
to_ulid y = do
  unix_micros ← or_raise (checked y) timestamp_overflow
  ms ← or_raise (whole_millis unix_micros) timestamp_before_unix_epoch
  returned (ulid_at ms)

rounds_up :
    (n : ℕ) → try_unsigned (balance 0 ((n + 1) / 1000)) ≡ (if ltb n 999 then some 0 else none)
unfolding try_unsigned balance
rounds_up n = ground arith

to_ulid_lem : (y : ℤ) → IsPosOrFits y → to_ulid y ≡ expected_ulid y
unfolding whole_millis checked try_unsigned
to_ulid_lem (pos y) h = elim (Bool-cases (ltb y (2 ^ 63))) [
  | inl e ↦ rw (e, whole_millis, millis y (ltb→lt _ _ e), try_unsigned) refl
  | inr e ↦ rw e refl
]
to_ulid_lem (negsuc n) h =
    rw (lt→ltb n (2 ^ 63) h, whole_millis, negative_millis n h, rounds_up n)
      (elim (Bool-cases (ltb n 999)) [ inl e ↦ rw e refl | inr e ↦ rw e refl ])

offset_fits : (z : ℤ) → in_i64 z ≡ true → IsPosOrFits (z +ℤ pg_epoch_offset_micros)
unfolding ◌+ℤ◌ balance
offset_fits z fits = ground arith

fits_back : (y : ℕ) → y < 2 ^ 62 → in_i64 (pg_micros_of y) ≡ true
unfolding balance
fits_back y h = ground arith

offset_back : (y : ℕ) → pg_micros_of y +ℤ pg_epoch_offset_micros ≡ pos y
unfolding ◌+ℤ◌ balance
offset_back y = ground arith

in_range_back : (t : ℕ) → t < 2 ^ 48 → expected_ulid (pos (t * 1000)) ≡ returned (ulid_at t)
in_range_back t h =
    let fits : ltb (t * 1000) (2 ^ 63) ≡ true = lt→ltb _ _ (omega arith) in
    let whole : t * 1000 / 1000 ≡ t = omega arith in rw (fits, whole) refl

module _ (pg : Pgrx) where
  -- The time of a ULID is its timestamp in microseconds, from 2000 on, if pgrx accepts it.
  ulid_to_timestamptz_lem :
      (u : Ulid)
      → ulid_to_timestamptz pg u
        ≡ or_raise
            (pg.try_from_micros (pg_micros_of (timestamp_of u * 1000)))
            timestamp_out_of_range
  unfolding ulid_to_timestamptz
  ulid_to_timestamptz_lem u =
      let h : timestamp_of u < 2 ^ 48 = timestamp_of-lt u in
      rw
        (
          as_i64-small (timestamp_of u) h,
          checked_mul-small (timestamp_of u) h,
          checked_sub-small (timestamp_of u * 1000) (omega arith),
          ulid_to_timestamptz,
        )
        refl

  timestamptz_to_ulid-expected_ulid :
      (ts : pg.TimestampWithTimeZone) (z : ℤ)
      → pg.try_into_micros ts ≡ some z
      → in_i64 z ≡ true
      → timestamptz_to_ulid pg ts ≡ expected_ulid (z +ℤ pg_epoch_offset_micros)
  unfolding timestamptz_to_ulid whole_millis checked_add try_unsigned
  timestamptz_to_ulid-expected_ulid ts z given fits =
      rw (given, timestamptz_to_ulid) (to_ulid_lem _ (offset_fits z fits))

  -- In a build without debug assertions: a point of time becomes the ULID with no random part whose timestamp
  -- is the whole milliseconds since 1970, of which 48 bits are kept, so that from 2 ^ 48 milliseconds on
  -- it is another time; a time before 1970 is an error, but for the last 999 microseconds, which become
  -- the ULID of 0, and so is one whose Unix time in microseconds is past `i64`.
  pub timestamptz_to_ulid_lem :
      (ts : pg.TimestampWithTimeZone) (z : ℤ)
      → pg.try_into_micros ts ≡ some z
      → in_i64 z ≡ true
      → timestamptz_to_ulid pg ts ≡ cut_ulid (z +ℤ pg_epoch_offset_micros)
  timestamptz_to_ulid_lem ts z given fits =
      timestamptz_to_ulid-expected_ulid ts z given fits
      ∙ expected_ulid-cut_ulid (z +ℤ pg_epoch_offset_micros)

  -- If pgrx can undo its conversion and accepts the time of a ULID, the ULID casts to that time; the
  -- time casts to the ULID with the same timestamp and no random part, which casts to that time again.
  pub timestamptz_to_ulid-ulid_to_timestamptz :
      (u : Ulid) (ts : pg.TimestampWithTimeZone)
      → IsPgrx pg
      → pg.try_from_micros (pg_micros_of (timestamp_of u * 1000)) ≡ some ts
      → (ulid_to_timestamptz pg u ≡ returned ts)
        × (timestamptz_to_ulid pg ts ≡ returned (ulid_at (timestamp_of u)))
        × (timestamp_of (ulid_at (timestamp_of u)) ≡ timestamp_of u)
        × (ulid_to_timestamptz pg (ulid_at (timestamp_of u)) ≡ returned ts)
  timestamptz_to_ulid-ulid_to_timestamptz u ts works accepted = (
    ulid_to_timestamptz_lem u ∙ rw accepted refl,
    back,
    same,
    ulid_to_timestamptz_lem (ulid_at (timestamp_of u)) ∙ rw (same, accepted) refl,
  )
    where
      h : timestamp_of u < 2 ^ 48
      h = timestamp_of-lt u

      same : timestamp_of (ulid_at (timestamp_of u)) ≡ timestamp_of u
      same = timestamp-from_inner (timestamp_of u) 0 h

      back : timestamptz_to_ulid pg ts ≡ returned (ulid_at (timestamp_of u))
      back =
          timestamptz_to_ulid-expected_ulid ts (pg_micros_of (timestamp_of u * 1000))
            (works.undone _ ts accepted) (fits_back (timestamp_of u * 1000) (omega (arith, h)))
          ∙ rw (offset_back (timestamp_of u * 1000)) (in_range_back (timestamp_of u) h)
