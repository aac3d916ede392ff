-- ===== src/Time/MonoClock.antt =====
-- `MonotonicClock` of crates/ferroid/src/time/mono_clock.rs: a thread that ticks, and readers of the
-- counter that it stores. The time of the machine is a parameter: it passes in any steps, and never
-- goes back (`Instant`). A relaxed load may return an old value of the counter, but not one older
-- than the same thread has read before.
pub mod Rising
use ferroid.Common.{
  ℕ, ◌+◌, ◌-◌, ◌/◌, ◌%◌, ◌^◌, ◌≤◌, ◌<◌, List, [], ◌∷◌, ◌++◌, length, get_or, Option, none, some,
}

-- `TWITTER_EPOCH` and the others, in milliseconds.
abbrev pub unix_epoch : ℕ
unix_epoch = 0

abbrev pub twitter_epoch : ℕ
twitter_epoch = 1288834974657

abbrev pub discord_epoch : ℕ
discord_epoch = 1420070400000

abbrev pub instagram_epoch : ℕ
instagram_epoch = 1293840000000

-- `base_system_now`, of the milliseconds since 1970 that the system clock gives; `none` for a time
-- before.
unfoldable pub base_system_now : Option ℕ → ℕ
base_system_now none = 0
base_system_now (some millis) = millis % 2 ^ 64

-- The offset of a clock with this epoch: a subtraction that stops at 0.
unfoldable pub with_epoch : ℕ → ℕ → ℕ
with_epoch base epoch = base - epoch % 2 ^ 64

-- In units of `n` milliseconds; the sum wraps.
unfoldable pub current_millis : ℕ → ℕ → ℕ → ℕ
current_millis n epoch_offset current = (epoch_offset + current) % 2 ^ 64 / n

-- The ticker sleeps until its next tick, or has measured the time and is about to store it.
pub data Phase : Type 0 where
  sleeping : (tick : ℕ) → Phase
  measured : (now_ms : ℕ) → Phase

-- The milliseconds since `start`, the ticker, the values that the counter has held, and which of
-- them the reader has loaded last.
pub record Clock : Type 0 where
  pub elapsed : ℕ
  pub phase : Phase
  pub history : List ℕ
  pub seen : ℕ

abbrev pub initial : Clock
initial = record { elapsed = 0; phase = sleeping 0; history = 0 ∷ []; seen = 0 }

-- The states that a clock and one reader get to, with what the reader has loaded, the latest first.
pub data Reaches : Clock → List ℕ → Type 0 where
  begun : Reaches initial []
  passes :
      (c : Clock) (loads : List ℕ) (e : ℕ)
      → Reaches c loads
      → c.elapsed ≤ e
      → Reaches (record { elapsed = e; phase = c.phase; history = c.history; seen = c.seen }) loads
  -- The sleep lasts until the tick, or longer.
  wakes :
      (e tick : ℕ) (history : List ℕ) (seen : ℕ) (loads : List ℕ)
      → Reaches
          (record { elapsed = e; phase = sleeping tick; history = history; seen = seen })
          loads
      → tick ≤ e
      → Reaches
          (record { elapsed = e; phase = measured (e % 2 ^ 64); history = history; seen = seen })
          loads
  stores :
      (e now_ms : ℕ) (history : List ℕ) (seen : ℕ) (loads : List ℕ)
      → Reaches
          (record { elapsed = e; phase = measured now_ms; history = history; seen = seen })
          loads
      → Reaches
          (record {
            elapsed = e;
            phase = sleeping ((now_ms + 1) % 2 ^ 64);
            history = history ++ now_ms ∷ [];
            seen = seen;
          })
          loads
  loads :
      (c : Clock) (before : List ℕ) (at : ℕ)
      → Reaches c before
      → c.seen ≤ at
      → at < length c.history
      → Reaches
          (record { elapsed = c.elapsed; phase = c.phase; history = c.history; seen = at })
          (get_or c.history at 0 ∷ before)
