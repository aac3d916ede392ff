-- ===== src/Generator/Snowflake/Atomic.antt =====
-- `AtomicSnowflakeGenerator` of crates/ferroid/src/generator/snowflake/atomic.rs. A poll is three
-- accesses to what the threads share: the clock, the load, and the compare-exchange; `plan` is what
-- it computes between the last two, and `publish` the compare-exchange with the two returns.
pub mod Refines
use ferroid.Common.{
  ℕ, ◌-◌, compare, Ordering, if◌then◌else◌, ◌==◌, List, [], ◌∷◌, Option, none, some,
}
use ferroid.Id.Snowflake.{SnowflakeId, has_sequence_room, increment_sequence, rollover_to_timestamp}
use ferroid.Generator.Poll.{Poll, ready, pending}
use ferroid.Generator.Snowflake.Basic.{Next}

-- Before the compare-exchange a poll either returns early or has the next ID.
pub data Plan : Type 0 where
  return_early : Poll → Plan
  exchange : (next_id : ℕ) → Plan

module _ (o : SnowflakeId) where
  unfoldable pub from_components : ℕ → ℕ → ℕ → ℕ
  from_components timestamp machine_id sequence = o.from_components timestamp machine_id sequence

  unfoldable pub new : ℕ → ℕ
  unfolding from_components
  new machine_id = from_components 0 machine_id 0

  unfoldable pub cold_clock_behind : ℕ → ℕ → Poll
  cold_clock_behind now current_ts = pending (current_ts - now)

  unfoldable pub plan : ℕ → ℕ → Plan
  unfolding cold_clock_behind
  plan now current_id = elim (compare now (o.timestamp current_id)) [
    | Ordering.eq ↦
        if has_sequence_room o current_id
        then exchange (increment_sequence o current_id)
        else return_early (pending 1)
    | Ordering.gt ↦ exchange (rollover_to_timestamp o current_id now)
    | Ordering.lt ↦ return_early (cold_clock_behind now (o.timestamp current_id))
  ]

  -- The compare-exchange on the shared word `state`: the result, and the word that it leaves.
  unfoldable pub publish : ℕ → ℕ → ℕ → Poll × ℕ
  publish current_raw next_id state =
      if state == current_raw then (ready next_id, next_id) else (pending 0, state)

  -- A poll that no other thread disturbs.
  unfoldable pub poll_id : ℕ → ℕ → Poll × ℕ
  unfolding plan publish
  poll_id now state = elim (plan now state) [
    | return_early outcome ↦ (outcome, state)
    | exchange next_id ↦ publish state next_id state
  ]

  -- The loop of `next_id`, where no other thread disturbs it; `none` if the readings do not suffice.
  unfoldable pub next_id_loop : List ℕ → ℕ → List ℕ → Option Next
  next_id_loop [] state yields = none
  next_id_loop (now ∷ rest) state yields =
      let (outcome, state') = poll_id now state in
      elim outcome [
        | ready id ↦ some (record { id = id; state = state'; rest = rest; yields = yields })
        | pending yield_for ↦ next_id_loop rest state' (yield_for ∷ yields)
      ]

  unfoldable pub next_id : List ℕ → ℕ → Option Next
  unfolding next_id_loop
  next_id readings state = next_id_loop readings state []
