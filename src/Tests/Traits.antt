-- ===== src/Tests/Traits.antt =====
-- The generators behind their traits.
use ferroid.Common.{ℕ, ◌+◌, ◌≡◌, List, [], ◌∷◌}
use ferroid.Generator.Poll
use ferroid.Generator.Snowflake.Basic
use ferroid.Generator.Snowflake.Atomic
use ferroid.Generator.Snowflake.Lock
use ferroid.Generator.Snowflake.Parking
use ferroid.Generator.Ulid.BasicMono
use ferroid.Generator.Ulid.BasicMono.{Reading}
use ferroid.Generator.Ulid.AtomicMono
use ferroid.Generator.Ulid.LockMono
use ferroid.Generator.Ulid.Parking as UlidParking
use ferroid.Generator.Interface.Looping.{IsGenerator}
use ferroid.Generator.Interface.Instances.{parking_snowflake, parking_mono}
use ferroid.Generator.Interface.Implements.{generators-IsGenerator}
use ferroid.Generator.Snowflake.Parking.{into_infallible}
use ferroid.Futures.Traits.Tokio
use ferroid.Futures.Traits.Smol
use ferroid.Futures.Traits.Runtimes.{awaited, runtimes-try_next_id}
use ferroid.Tests.Snowflakes.{ids}
use ferroid.Tests.Ulids
use ferroid.Tests.Workers.{readings}

abbrev first : Reading
first = record { now = 3; rand = 42 }

abbrev polls : List Reading
polls = first ∷ record { now = 4; rand = 5 } ∷ []

-- The world is the sum of the sleeps.
abbrev asleep : ℕ → ℕ → ℕ
asleep dur w = w + dur

parking_law : IsGenerator (parking_snowflake ids)
parking_law = (generators-IsGenerator ids Ulids.ids).3

parking_mono_law : IsGenerator (parking_mono Ulids.ids)
parking_mono_law = (generators-IsGenerator ids Ulids.ids).8

runtimes-try_next_id_example :
    (awaited (Tokio.try_next_id_async (parking_snowflake ids) 1 asleep readings 42 0)
      ≡ Parking.try_next_id ids readings 42)
    × (awaited (Smol.try_next_id_async (parking_snowflake ids) 1 asleep readings 42 0)
        ≡ Parking.try_next_id ids readings 42)
    × (awaited (Tokio.ulid_try_next_id_async (parking_mono Ulids.ids) 1 asleep polls 7 0)
        ≡ UlidParking.try_next_id Ulids.ids polls 7)
    × (awaited (Smol.ulid_try_next_id_async (parking_mono Ulids.ids) 1 asleep polls 7 0)
        ≡ UlidParking.try_next_id Ulids.ids polls 7)
runtimes-try_next_id_example =
    runtimes-try_next_id (parking_snowflake ids) (parking_mono Ulids.ids) 1 asleep asleep
      parking_law parking_mono_law readings polls 42 7 0
