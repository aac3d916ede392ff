-- ===== src/Futures.antt =====
-- The asynchronous loops of crates/ferroid/src/futures/snowflake.rs and ulid.rs, with to_u64.rs of
-- crates/ferroid/src/id/. Both files have one loop, here for any generator: `R` is what a poll reads
-- from the clock and the source of randomness, `S` the state. Between two polls the loop sleeps by the
-- runtime's function; the model lists the durations. Nobody else polls the generator in between.
pub mod Loop
pub mod Traits
pub mod Advanced
pub mod Waits
use ferroid.Common.{ℕ, ◌-◌, ◌*◌, ◌^◌, min, List, [], ◌∷◌, Option, none, some}
use ferroid.Generator.Poll.{Poll, ready, pending, Result, ok, err}

-- `ToU64` saturates.
unfoldable pub to_u64 : ℕ → ℕ
to_u64 x = min x (2 ^ 64 - 1)

-- `u64::saturating_mul`
unfoldable pub saturating_mul : ℕ → ℕ → ℕ
saturating_mul a b = min (a * b) (2 ^ 64 - 1)

-- The result, the state that is left, and the sleeps in milliseconds.
pub record Awaited (S : Type 0) : Type 0 where
  pub result : Result ℕ
  pub state : S
  pub sleeps : List ℕ

abbrev pub slept : {S : Type 0} → ℕ → Option (Awaited S) → Option (Awaited S)
slept dur none = none
slept dur (some a) = some (record { result = a.result; state = a.state; sleeps = dur ∷ a.sleeps })

module _ {R S : Type 0} (try_poll_id : R → S → Result Poll × S) (granularity_millis : ℕ) where
  unfoldable pub back_off : ℕ → ℕ
  unfolding to_u64 saturating_mul
  back_off yield_for = saturating_mul (to_u64 yield_for) granularity_millis

  -- `none` if the readings do not suffice.
  unfoldable pub try_next_id_async : List R → S → Option (Awaited S)
  unfolding back_off
  try_next_id_async [] s = none
  try_next_id_async (r ∷ rest) s =
      let (outcome, s') = try_poll_id r s in
      let later = try_next_id_async rest s' in
      elim outcome [
        | err e ↦ some (record { result = err e; state = s'; sleeps = [] })
        | ok (ready id) ↦ some (record { result = ok id; state = s'; sleeps = [] })
        | ok (pending yield_for) ↦ slept (back_off yield_for) later
      ]
