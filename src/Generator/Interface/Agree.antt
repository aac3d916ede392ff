-- ===== src/Generator/Interface/Agree.antt =====
-- The shared generators hand out what the basic ones do.
use ferroid.Generator.Poll.{Poll}
use ferroid.Generator.Poll
use ferroid.Generator.Snowflake.Basic
use ferroid.Generator.Snowflake.Atomic
use ferroid.Generator.Snowflake.Lock
use ferroid.Generator.Snowflake.Parking
use ferroid.Generator.Snowflake.Parking.{into_infallible}
use ferroid.Generator.Ulid.BasicMono
use ferroid.Generator.Ulid.AtomicMono
use ferroid.Generator.Ulid.LockMono
use ferroid.Generator.Ulid.Parking as UlidParking
