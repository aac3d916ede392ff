-- ===== src/Generator/Ulid/LockMono.antt =====
-- `LockMonoUlidGenerator` of crates/ferroid/src/generator/ulid/lock_mono.rs: the last ID behind a
-- mutex, which a standard mutex may find poisoned.
pub mod Loop
use ferroid.Common.{
  List, [], ◌∷◌, Option, none, some, ℕ, ◌-◌, ◌≡◌, compare, Ordering, true, false, if◌then◌else◌,
  arith,
}
use ferroid.Id.Ulid.{UlidId, has_random_room, increment_random, rollover_to_timestamp}
use ferroid.Generator.Poll.{Poll, ready, pending, lock_poisoned, Result, ok, err}
use ferroid.Generator.Snowflake.Lock.{Mutex, lock}
use ferroid.Generator.Ulid.BasicMono

module _ (o : UlidId) where
  unfoldable pub from_components : ℕ → ℕ → Mutex
  from_components timestamp random = record {
    id = o.from_components timestamp random;
    poisoned = false;
  }

  unfoldable pub new : Mutex
  unfolding from_components
  new = from_components 0 0

  unfoldable pub cold_clock_behind : ℕ → ℕ → Poll
  cold_clock_behind now current_ts = pending (current_ts - now)

  unfoldable pub try_poll_id : ℕ → ℕ → Mutex → Result Poll × Mutex
  unfolding cold_clock_behind
  try_poll_id now rand s = elim (lock s) [
    | err e ↦ (err e, s)
    | ok id ↦ elim (compare now (o.timestamp id)) [
      | Ordering.eq ↦
          if has_random_room o id
          then (ok (ready (increment_random o id)), record s { id = increment_random o id })
          else (ok (pending 1), s)
      | Ordering.gt ↦ (
        ok (ready (rollover_to_timestamp o id now rand)),
        record s { id = rollover_to_timestamp o id now rand },
      )
      | Ordering.lt ↦ (ok (cold_clock_behind now (o.timestamp id)), s)
    ]
  ]

  -- The loop of `try_next_id` over the readings that its polls will take; `none` if they do not
  -- suffice. The result, with the state that the call leaves.
  unfoldable pub try_next_id : List BasicMono.Reading → Mutex → Option (Result ℕ × Mutex)
  try_next_id [] s = none
  try_next_id (r ∷ rest) s =
      let (outcome, s') = try_poll_id r.now r.rand s in
      elim outcome [
        | err e ↦ some (err e, s')
        | ok (ready id) ↦ some (ok id, s')
        | ok (pending yield_for) ↦ try_next_id rest s'
      ]

  -- On a sound mutex a poll returns what the basic monotonic generator's poll returns, and stores the
  -- same state; on a poisoned one it returns the error and stores nothing.
  pub lock_mono-poll_id :
      (now rand id : ℕ)
      → (try_poll_id now rand (record { id = id; poisoned = false }) ≡ (
        ok (BasicMono.poll_id o now rand id).0,
        record { id = (BasicMono.poll_id o now rand id).1; poisoned = false },
      ))
        × (try_poll_id now rand (record { id = id; poisoned = true })
            ≡ (err lock_poisoned, record { id = id; poisoned = true }))
  unfolding try_poll_id BasicMono.poll_id
  lock_mono-poll_id now rand id = ground arith
