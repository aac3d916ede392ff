-- ===== src/Tests/Async.antt =====
-- The asynchronous loops.
use ferroid.Common.{ℕ, true, List, [], ◌∷◌}
use ferroid.Id.SnowflakeLayout.{twitter, from_components}
use ferroid.Generator.Snowflake.Lock
use ferroid.Generator.Snowflake.Lock.{Mutex}
use ferroid.Generator.Ulid.BasicMono.{Reading}

-- A generator of machine 7 whose last ID is of the time 5.
abbrev ahead : ℕ
ahead = from_components twitter 5 7 0

abbrev mono : List Reading
mono = (record { now = 4; rand = 9 }) ∷ []

abbrev poisoned : Mutex
poisoned = record { id = ahead; poisoned = true }
