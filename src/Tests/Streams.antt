-- ===== src/Tests/Streams.antt =====
-- A whole request through a server that has just started.
use ferroid.Common.{ℕ, ◌≤◌, refl, arith, false, List, [], ◌∷◌, length}
use ferroid.Id.SnowflakeLayout.{twitter}
use ferroid.Generator.Snowflake.Basic
use ferroid.Generator.Snowflake.Basic.{issued}
use ferroid.Generator.Snowflake.Basic.Capacity.{length-issued}
use ferroid.Id.SnowflakeLayout.{sequence_mask_lem, twitter-IsLayout, from_components}
use ferroid.Server.Config.{ServerConfig}
use ferroid.Server.Processor.Packs.{open_channel}
use ferroid.Server.Service.{worker_generator}
use ferroid.Server.Stream.{Round, served, feed_stream}
use ferroid.Server.Stream.Rounds.{IsServable}
use ferroid.Server.Stream.Started.{new_server, new_tasks, machine_of, new_server-IsServing}
use ferroid.Server.Stream.Unique.{Whole, feed_stream-Whole}
use ferroid.Server.Pool.Manager
use ferroid.Server.Pool.Manager.{next_worker_index, send_to_next_worker}
use ferroid.Tests.Snowflakes.{ids, law, early_enough}
use ferroid.Tests.Workers.{readings}
use ferroid.Tests.Pool.{All-fit}

-- Two workers, and chunks of three IDs.
abbrev pub config : ServerConfig
config = record {
  max_allowed_ids = 1000;
  shard_offset = 7;
  num_workers = 2;
  ids_per_chunk = 3;
  stream_buffer_size = 8;
  chunk_bytes = 24;
  server_addr = [];
  uds = false;
  shutdown_timeout = 10;
}

pub enough_of : (m : ℕ) → 3 ≤ length (issued ids readings (from_components twitter 0 m 0))
enough_of m = omega (
  arith,
  length-issued ids law 5 9 (from_components twitter 0 m 0) (law.canonical 0 m 0)
      (omega (arith, law.timestamp_of 0 m 0 (omega arith))) (early_enough 9 (omega arith)),
  sequence_mask_lem twitter twitter-IsLayout,
)

abbrev round : Round
round = record { chunk_tx = open_channel; readings = readings }

-- A chunk of each worker.
abbrev rounds : List Round
rounds = round ∷ round ∷ []

servable : IsServable ids 3 rounds 6 (new_server config)
unfolding new_server new_tasks Manager.new next_worker_index send_to_next_worker served
    worker_generator Basic.new Basic.from_components
servable = (refl, enough_of 7, All-fit, (refl, enough_of 8, All-fit, tt))

feed_stream-Whole_example :
    (handed : List ℕ) × Whole ids config.num_workers
      (machine_of config)
      (new_server config)
      6
      handed
      (feed_stream ids 3 (λ k. false) rounds 0 6 (new_server config))
unfolding new_server Manager.new
feed_stream-Whole_example =
    feed_stream-Whole ids law 3 (λ k. false) config.num_workers (machine_of config) rounds 0 6
      (new_server config) (new_server-IsServing config (omega arith) (omega arith)).1 (λ k. refl)
      (omega arith) (new_server-IsServing config (omega arith) (omega arith)).0 (omega arith)
      servable
