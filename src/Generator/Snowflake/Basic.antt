-- ===== src/Generator/Snowflake/Basic.antt =====
-- `BasicSnowflakeGenerator` of crates/ferroid/src/generator/snowflake/basic.rs. Its state is the
-- last ID, in a `Cell`; the clock is a parameter: each poll is handed the reading that it takes.
pub mod Step
pub mod Run
pub mod Loop
pub mod Capacity
use ferroid.Common.{ℕ, ◌-◌, ◌<◌, compare, Ordering, List, [], ◌∷◌, Option, none, some}
use ferroid.Common.{if◌then◌else◌}
use ferroid.Id.Snowflake.{SnowflakeId, has_sequence_room, increment_sequence, rollover_to_timestamp}
use ferroid.Generator.Poll.{Poll, ready, pending, collect}

-- What one call of `next_id` leaves behind: its ID, the new state, the readings not yet taken, and
-- the arguments that the back-off function was called with.
pub record Next : Type 0 where
  pub id : ℕ
  pub state : ℕ
  pub rest : List ℕ
  pub yields : List ℕ

module _ (o : SnowflakeId) where
  unfoldable pub from_components : ℕ → ℕ → ℕ → ℕ
  from_components timestamp machine_id sequence = o.from_components timestamp machine_id sequence

  unfoldable pub new : ℕ → ℕ
  unfolding from_components
  new machine_id = from_components 0 machine_id 0

  -- Called with `now` below `current_ts`, so the subtraction does not stop at 0.
  unfoldable pub cold_clock_behind : ℕ → ℕ → Poll
  cold_clock_behind now current_ts = pending (current_ts - now)

  unfoldable pub poll_id : ℕ → ℕ → Poll × ℕ
  unfolding has_sequence_room increment_sequence rollover_to_timestamp cold_clock_behind
  poll_id now state = elim (compare now (o.timestamp state)) [
    | Ordering.eq ↦
        if has_sequence_room o state
        then (ready (increment_sequence o state), increment_sequence o state)
        else (pending 1, state)
    | Ordering.gt ↦ (ready (rollover_to_timestamp o state now), rollover_to_timestamp o state now)
    | Ordering.lt ↦ (cold_clock_behind now (o.timestamp state), state)
  ]

  -- The loop of `next_id` over the readings that the clock will give; `none` if they do not suffice.
  unfoldable pub next_id_loop : List ℕ → ℕ → List ℕ → Option Next
  next_id_loop [] state yields = none
  next_id_loop (now ∷ rest) state yields =
      let (outcome, state') = poll_id now state in
      elim outcome [
        | ready id ↦ some (record { id = id; state = state'; rest = rest; yields = yields })
        | pending yield_for ↦ next_id_loop rest state' (yield_for ∷ yields)
      ]

  unfoldable pub next_id : List ℕ → ℕ → Option Next
  unfolding next_id_loop
  next_id readings state = next_id_loop readings state []

  -- The IDs that one poll at each reading hands out, in order.
  unfoldable pub issued : List ℕ → ℕ → List ℕ
  issued [] state = []
  issued (now ∷ rest) state =
      let (outcome, state') = poll_id now state in collect outcome (issued rest state')
