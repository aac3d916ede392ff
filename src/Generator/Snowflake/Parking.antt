-- ===== src/Generator/Snowflake/Parking.antt =====
-- `LockSnowflakeGenerator` of crates/ferroid/src/generator/snowflake/lock.rs in a build with `parking-lot`,
-- whose mutex is never poisoned, so that `lock()` gives the last ID. The error type of
-- crates/ferroid/src/generator/error.rs has no values then, and there are `next_id` and `poll_id`.
use ferroid.Common.{ℕ, compare, Ordering, List, [], ◌∷◌, Option, none, some, if◌then◌else◌}
use ferroid.Id.Snowflake.{SnowflakeId, has_sequence_room, increment_sequence, rollover_to_timestamp}
use ferroid.Generator.Poll.{Poll, ready, pending}
use ferroid.Generator.Snowflake.Lock.{cold_clock_behind}
use ferroid.Generator.Interface.{Result, ok, err}

pub data Error : Type 0 where
  infallible : ⊥ → Error

-- `From<Error>` of `Infallible`.
unfoldable pub into_infallible : Error → ⊥
into_infallible (infallible i) = i

module _ (o : SnowflakeId) where
  unfoldable pub new : ℕ → ℕ
  new machine_id = o.from_components 0 machine_id 0

  unfoldable pub try_poll_id : ℕ → ℕ → Result Poll Error × ℕ
  unfolding cold_clock_behind
  try_poll_id now id = elim (compare now (o.timestamp id)) [
    | Ordering.eq ↦
        if has_sequence_room o id
        then (ok (ready (increment_sequence o id)), increment_sequence o id)
        else (ok (pending 1), id)
    | Ordering.gt ↦ (ok (ready (rollover_to_timestamp o id now)), rollover_to_timestamp o id now)
    | Ordering.lt ↦ (ok (cold_clock_behind o now (o.timestamp id)), id)
  ]

  unfoldable pub try_next_id : List ℕ → ℕ → Option (Result ℕ Error × ℕ)
  try_next_id [] id = none
  try_next_id (now ∷ rest) id =
      let (outcome, id') = try_poll_id now id in
      let later = try_next_id rest id' in
      elim outcome [
        | err e ↦ some (err e, id')
        | ok (ready next) ↦ some (ok next, id')
        | ok (pending yield_for) ↦ later
      ]

  unfoldable pub next_id : List ℕ → ℕ → Option (ℕ × ℕ)
  unfolding into_infallible
  next_id readings id = elim (try_next_id readings id) [
    | none ↦ none
    | some (ok next, id') ↦ some (next, id')
    | some (err e, id') ↦ absurd (into_infallible e)
  ]

  unfoldable pub poll_id : ℕ → ℕ → Poll × ℕ
  unfolding into_infallible
  poll_id now id =
      let (outcome, id') = try_poll_id now id in
      elim outcome [ ok status ↦ (status, id') | err e ↦ absurd (into_infallible e) ]
