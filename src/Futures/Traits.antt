-- ===== src/Futures/Traits.antt =====
-- The asynchronous extension traits of crates/ferroid/src/futures/snowflake.rs and ulid.rs, for any generator
-- of the traits in Generator.Interface, and their bindings to the runtimes in futures/runtime/tokio/ and
-- futures/runtime/smol/. A sleep takes the runtime's world `W` to what it is after the sleep; the functions
-- of the runtimes are parameters. Nobody else polls the generator in between.
pub mod Tokio
pub mod Smol
pub mod Runtimes
use ferroid.Common.{ℕ, List, [], ◌∷◌, Option, none, some}
use ferroid.Generator.Poll.{ready, pending}
use ferroid.Generator.Ulid.BasicMono.{Reading}
use ferroid.Generator.Interface.{Generator, Result, ok, err, value_of}
use ferroid.Futures.{to_u64, saturating_mul}

-- A `SleepProvider` over the worlds of its runtime, with the milliseconds of the sleep.
pub record SleepProvider (W : Type 0) : Type 0 where
  pub sleep_for : ℕ → W → W

-- `TokioSleep` and `TokioYield`, over `sleep` and `yield_now` of tokio.
abbrev pub tokio_sleep : {W : Type 0} → (ℕ → W → W) → SleepProvider W
tokio_sleep sleep = record { sleep_for = sleep }

abbrev pub tokio_yield : {W : Type 0} → (W → W) → SleepProvider W
tokio_yield yield_now = record { sleep_for = λ dur. yield_now }

-- `SmolSleep` and `SmolYield`, over a timer of smol, whose firing has no use here, and `yield_now`.
abbrev pub smol_sleep : {W : Type 0} → (ℕ → W → W) → SleepProvider W
smol_sleep after = record { sleep_for = after }

abbrev pub smol_yield : {W : Type 0} → (W → W) → SleepProvider W
smol_yield yield_now = record { sleep_for = λ dur. yield_now }

module _ {A R S W : Type 0} (g : Generator A R S) (granularity_millis : ℕ)
    (p : SleepProvider W) where
  -- The result with the state and the world that are left; `none` if the readings do not suffice.
  unfoldable pub try_next_id_async : List R → S → W → Option (Result ℕ g.Err × S × W)
  unfolding to_u64 saturating_mul
  try_next_id_async [] s w = none
  try_next_id_async (r ∷ rest) s w =
      let (outcome, s') = g.try_poll_id r s in
      elim outcome [
        | err e ↦ some (err e, s', w)
        | ok (ready id) ↦ some (ok id, s', w)
        | ok (pending yield_for) ↦
            try_next_id_async rest s'
              (p.sleep_for (saturating_mul (to_u64 yield_for) granularity_millis) w)
      ]

  unfoldable pub next_id_async : (g.Err → ⊥) → List R → S → W → Option (ℕ × S × W)
  unfolding try_next_id_async
  next_id_async into readings s w = elim (try_next_id_async readings s w) [
    | none ↦ none
    | some (result, s', w') ↦ some (value_of into result, s', w')
  ]
