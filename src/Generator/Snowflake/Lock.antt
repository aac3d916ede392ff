-- ===== src/Generator/Snowflake/Lock.antt =====
-- `LockSnowflakeGenerator` of crates/ferroid/src/generator/snowflake/lock.rs: the last ID behind a
-- mutex. A standard mutex is poisoned when a thread panics with it locked; one of `parking_lot`
-- never is. The reading is taken before the lock, so readings need not ascend from call to call.
pub mod Refines
use ferroid.Common.{ℕ, ◌-◌, compare, Ordering, Bool, true, false, List, [], ◌∷◌, if◌then◌else◌}
use ferroid.Common.{Option, none, some}
use ferroid.Id.Snowflake.{SnowflakeId, has_sequence_room, increment_sequence, rollover_to_timestamp}
use ferroid.Generator.Poll.{Poll, ready, pending, Error, lock_poisoned, Result, ok, err}

pub record Mutex : Type 0 where
  pub id : ℕ
  pub poisoned : Bool

-- `lock()`, up to the conversion of a `PoisonError` to `Error::LockPoisoned`.
abbrev pub lock : Mutex → Result ℕ
lock s = if s.poisoned then err lock_poisoned else ok s.id

module _ (o : SnowflakeId) where
  unfoldable pub from_components : ℕ → ℕ → ℕ → Mutex
  from_components timestamp machine_id sequence = record {
    id = o.from_components timestamp machine_id sequence;
    poisoned = false;
  }

  unfoldable pub new : ℕ → Mutex
  unfolding from_components
  new machine_id = from_components 0 machine_id 0

  unfoldable pub cold_clock_behind : ℕ → ℕ → Poll
  cold_clock_behind now current_ts = pending (current_ts - now)

  unfoldable pub try_poll_id : ℕ → Mutex → Result Poll × Mutex
  unfolding cold_clock_behind
  try_poll_id now s = elim (lock s) [
    | err e ↦ (err e, s)
    | ok id ↦ elim (compare now (o.timestamp id)) [
      | Ordering.eq ↦
          if has_sequence_room o id
          then (ok (ready (increment_sequence o id)), record s { id = increment_sequence o id })
          else (ok (pending 1), s)
      | Ordering.gt ↦ (
        ok (ready (rollover_to_timestamp o id now)),
        record s { id = rollover_to_timestamp o id now },
      )
      | Ordering.lt ↦ (ok (cold_clock_behind now (o.timestamp id)), s)
    ]
  ]

  -- The loop of `try_next_id` over the readings that the clock will give; `none` if they do not
  -- suffice. The result, with the state that the call leaves.
  unfoldable pub try_next_id : List ℕ → Mutex → Option (Result ℕ × Mutex)
  try_next_id [] s = none
  try_next_id (now ∷ rest) s =
      let (outcome, s') = try_poll_id now s in
      elim outcome [
        | err e ↦ some (err e, s')
        | ok (ready id) ↦ some (ok id, s')
        | ok (pending _) ↦ try_next_id rest s'
      ]
