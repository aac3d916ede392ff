-- ===== src/Futures/Traits/Tokio.antt =====
-- crates/ferroid/src/futures/runtime/tokio/snowflake.rs and tokio/ulid.rs. `sleep` is `tokio::time::sleep`.
use ferroid.Common.{ℕ, List, Option}
use ferroid.Generator.Ulid.BasicMono.{Reading}
use ferroid.Generator.Interface.{Generator, Result}
use ferroid.Futures.Traits
use ferroid.Futures.Traits.{tokio_sleep}

module _ {S W : Type 0} (g : Generator ℕ ℕ S) (granularity_millis : ℕ) (sleep : ℕ → W → W) where
  unfoldable pub next_id_async : (g.Err → ⊥) → List ℕ → S → W → Option (ℕ × S × W)
  next_id_async into readings s w =
      Traits.next_id_async g granularity_millis (tokio_sleep sleep) into readings s w

  unfoldable pub try_next_id_async : List ℕ → S → W → Option (Result ℕ g.Err × S × W)
  try_next_id_async readings s w =
      Traits.try_next_id_async g granularity_millis (tokio_sleep sleep) readings s w

module _ {S W : Type 0} (g : Generator Unit Reading S) (granularity_millis : ℕ)
    (sleep : ℕ → W → W) where
  unfoldable pub ulid_next_id_async : (g.Err → ⊥) → List Reading → S → W → Option (ℕ × S × W)
  ulid_next_id_async into readings s w =
      Traits.next_id_async g granularity_millis (tokio_sleep sleep) into readings s w

  unfoldable pub ulid_try_next_id_async : List Reading → S → W → Option (Result ℕ g.Err × S × W)
  ulid_try_next_id_async readings s w =
      Traits.try_next_id_async g granularity_millis (tokio_sleep sleep) readings s w
