-- ===== src/Futures/Waits.antt =====
-- How long the asynchronous loop of a locked Snowflake generator takes, by the time of the machine.
use ferroid.Common.{ℕ}
use ferroid.Id.Snowflake.{SnowflakeId}
use ferroid.Generator.Poll.{ready, pending}
use ferroid.Generator.Snowflake.Basic.{poll_id}
use ferroid.Generator.Snowflake.Lock.{try_poll_id}
use ferroid.Futures.{back_off}

-- The milliseconds that the loop sleeps after a poll, by its back-off.
abbrev pub nap : SnowflakeId → ℕ → ℕ → ℕ → ℕ
nap o g now state = elim (poll_id o now state).0 [
  | ready id ↦ 0
  | pending yield_for ↦ back_off (try_poll_id o) g yield_for
]
