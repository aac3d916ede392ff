-- ===== src/Generator/Ulid/BasicMono.antt =====
-- `BasicMonoUlidGenerator` of crates/ferroid/src/generator/ulid/basic_mono.rs. Its state is the last
-- ID, in a `Cell`; each poll is handed the clock's reading and the number that the source of
-- randomness gives if the poll asks for one.
pub mod Step
pub mod Run
use ferroid.Common.{ℕ, ◌-◌, compare, Ordering, List, [], ◌∷◌, Option, none, some, if◌then◌else◌}
use ferroid.Id.Ulid.{UlidId, has_random_room, increment_random, rollover_to_timestamp}
use ferroid.Generator.Poll.{Poll, ready, pending, collect}

-- What one poll reads.
pub record Reading : Type 0 where
  pub now : ℕ
  pub rand : ℕ

module _ (o : UlidId) where
  unfoldable pub from_components : ℕ → ℕ → ℕ
  from_components timestamp random = o.from_components timestamp random

  unfoldable pub new : ℕ
  unfolding from_components
  new = from_components 0 0

  -- Called with `now` below `current_ts`, so the subtraction does not stop at 0.
  unfoldable pub cold_clock_behind : ℕ → ℕ → Poll
  cold_clock_behind now current_ts = pending (current_ts - now)

  unfoldable pub poll_id : ℕ → ℕ → ℕ → Poll × ℕ
  unfolding cold_clock_behind
  poll_id now rand state = elim (compare now (o.timestamp state)) [
    | Ordering.eq ↦
        if has_random_room o state
        then (ready (increment_random o state), increment_random o state)
        else (pending 1, state)
    | Ordering.gt ↦
        (ready (rollover_to_timestamp o state now rand), rollover_to_timestamp o state now rand)
    | Ordering.lt ↦ (cold_clock_behind now (o.timestamp state), state)
  ]

  -- `next_id` over the readings that its polls will take: the ID with the new state; `none` if the
  -- readings do not suffice.
  unfoldable pub next_id : List Reading → ℕ → Option (ℕ × ℕ)
  next_id [] state = none
  next_id (r ∷ rest) state =
      let (outcome, state') = poll_id r.now r.rand state in
      elim outcome [ ready id ↦ some (id, state') | pending yield_for ↦ next_id rest state' ]

  -- The IDs that one poll at each reading hands out, in order.
  unfoldable pub issued : List Reading → ℕ → List ℕ
  issued [] state = []
  issued (r ∷ rest) state =
      let (outcome, state') = poll_id r.now r.rand state in collect outcome (issued rest state')
