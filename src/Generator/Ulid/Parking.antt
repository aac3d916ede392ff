-- ===== src/Generator/Ulid/Parking.antt =====
-- `LockMonoUlidGenerator` of crates/ferroid/src/generator/ulid/lock_mono.rs in a build with `parking-lot`,
-- whose mutex is never poisoned.
use ferroid.Common.{ℕ, compare, Ordering, List, [], ◌∷◌, Option, none, some, if◌then◌else◌}
use ferroid.Id.Ulid.{UlidId, has_random_room, increment_random, rollover_to_timestamp}
use ferroid.Generator.Poll.{Poll, ready, pending}
use ferroid.Generator.Ulid.BasicMono.{Reading}
use ferroid.Generator.Snowflake.Parking.{Error, into_infallible}
use ferroid.Generator.Ulid.LockMono.{cold_clock_behind}
use ferroid.Generator.Interface.{Result, ok, err}

module _ (o : UlidId) where
  unfoldable pub new : ℕ
  new = o.from_components 0 0

  unfoldable pub try_poll_id : Reading → ℕ → Result Poll Error × ℕ
  unfolding cold_clock_behind
  try_poll_id r id = elim (compare r.now (o.timestamp id)) [
    | Ordering.eq ↦
        if has_random_room o id
        then (ok (ready (increment_random o id)), increment_random o id)
        else (ok (pending 1), id)
    | Ordering.gt ↦ (
      ok (ready (rollover_to_timestamp o id r.now r.rand)),
      rollover_to_timestamp o id r.now r.rand,
    )
    | Ordering.lt ↦ (ok (cold_clock_behind o r.now (o.timestamp id)), id)
  ]

  unfoldable pub try_next_id : List Reading → ℕ → Option (Result ℕ Error × ℕ)
  try_next_id [] id = none
  try_next_id (r ∷ rest) id =
      let (outcome, id') = try_poll_id r id in
      let later = try_next_id rest id' in
      elim outcome [
        | err e ↦ some (err e, id')
        | ok (ready next) ↦ some (ok next, id')
        | ok (pending yield_for) ↦ later
      ]

  unfoldable pub next_id : List Reading → ℕ → Option (ℕ × ℕ)
  unfolding into_infallible
  next_id readings id = elim (try_next_id readings id) [
    | none ↦ none
    | some (ok next, id') ↦ some (next, id')
    | some (err e, id') ↦ absurd (into_infallible e)
  ]

  unfoldable pub poll_id : Reading → ℕ → Poll × ℕ
  unfolding into_infallible
  poll_id r id =
      let (outcome, id') = try_poll_id r id in
      elim outcome [ ok status ↦ (status, id') | err e ↦ absurd (into_infallible e) ]
