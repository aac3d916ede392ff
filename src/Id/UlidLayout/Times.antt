-- ===== src/Id/UlidLayout/Times.antt =====
-- The constructors of `define_ulid!` from times, and `datetime` back. `rand` is what `ThreadRandom` gives.
use ferroid.Common.{
  ℕ, ◌+◌, ◌*◌, ◌/◌, ◌%◌, ◌^◌, ◌≤◌, ◌<◌, ◌≡◌, ◌∙◌, refl, ap, arith, Option, none, some,
}
use ferroid.Id.Ulid.{IsCanonical}
use ferroid.Id.UlidLayout.Defs.{
  UlidLayout, IsLayout, timestamp_mask, from_components, timestamp, random, from_timestamp_and_rand,
  from_datetime_and_rand, ulid_id,
}
use ferroid.Id.UlidLayout.Lawful.{ulid_id-IsLawful}

-- A time as the nanoseconds since the Unix epoch, or before it.
pub data SystemTime : Type 0 where
  since : (nanos : ℕ) → SystemTime
  before : (nanos : ℕ) → SystemTime

-- `duration_since(UNIX_EPOCH)`, in whole milliseconds.
unfoldable pub millis_since_epoch : SystemTime → Option ℕ
millis_since_epoch (since nanos) = some (nanos / 10 ^ 6)
millis_since_epoch (before nanos) = none

module _ (l : UlidLayout) where
  unfoldable pub from_timestamp : ℕ → ℕ → ℕ
  unfolding from_timestamp_and_rand
  from_timestamp timestamp rand = from_timestamp_and_rand l timestamp rand

  unfoldable pub from_datetime : SystemTime → ℕ → ℕ
  unfolding from_datetime_and_rand millis_since_epoch
  from_datetime datetime rand = from_datetime_and_rand l (millis_since_epoch datetime) rand

  -- `system_now` is what the clock of the system says.
  unfoldable pub now : SystemTime → ℕ → ℕ
  unfolding from_datetime
  now system_now rand = from_datetime system_now rand

  -- The timestamp is cut to a `u64`.
  unfoldable pub datetime : ℕ → SystemTime
  datetime id = since (timestamp l id % 2 ^ 64 * 10 ^ 6)

-- The milliseconds of a time since the epoch, 0 for a time before it.
abbrev pub unix_millis : SystemTime → ℕ
unix_millis (since nanos) = nanos / 10 ^ 6
unix_millis (before nanos) = 0

module _ (l : UlidLayout) where
  pub from_datetime_lem :
      (t : SystemTime) (rand : ℕ) → from_datetime l t rand ≡ from_components l (unix_millis t) rand
  unfolding from_datetime from_datetime_and_rand millis_since_epoch
  from_datetime_lem (since nanos) rand = refl
  from_datetime_lem (before nanos) rand = refl

whole_millis : (n : ℕ) → n * 10 ^ 6 / 10 ^ 6 ≡ n
whole_millis n = omega arith

-- In a layout whose timestamps fit 64 bits: a ULID of a time that the timestamp field can hold gives that
-- time back in whole milliseconds, the Unix epoch for a time before it, and the random number cut to its
-- field; and a valid ULID is the one of its time and its random part.
pub datetime-from_datetime :
    (l : UlidLayout)
    → IsLayout l
    → timestamp_mask l < 2 ^ 64
    → (t : SystemTime) (rand id : ℕ) → unix_millis t ≤ timestamp_mask l
    → IsCanonical (ulid_id l) id
    → (datetime l (from_datetime l t rand) ≡ since (unix_millis t * 10 ^ 6))
      × (random l (from_datetime l t rand) ≡ rand % ((ulid_id l).max_random + 1))
      × (from_datetime l (datetime l id) (random l id) ≡ id)
unfolding datetime
datetime-from_datetime l good narrow t rand id fits c =
    let law = ulid_id-IsLawful l good in
    (
      rw (from_datetime_lem l t rand, law.timestamp_of (unix_millis t) rand fits)
          (ap (λ (n : ℕ). since (n * 10 ^ 6)) (omega arith)),
      rw (from_datetime_lem l t rand) (law.random_of (unix_millis t) rand),
      from_datetime_lem l _ _
          ∙ ap (λ (n : ℕ). from_components l n (random l id))
              (whole_millis (timestamp l id % 2 ^ 64) ∙ omega (arith, law.timestamp_le id))
          ∙ law.rebuilt id c,
    )
