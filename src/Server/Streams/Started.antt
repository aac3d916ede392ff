-- ===== src/Server/Streams/Started.antt =====
-- The server of `IdService::new`, with any number of requests.
use ferroid.Common.{
  ℕ, ◌+◌, ◌≤◌, ◌<◌, ◌≡◌, refl, ap, arith, false, true, List, [], map, All, replicate,
}
use ferroid.Id.SnowflakeLayout.{twitter, twitter-IsLayout, snowflake_id, snowflake_id-IsLawful}
use ferroid.Generator.Snowflake.Basic.Run.{FromMachine}
use ferroid.Server.Config.{ServerConfig}
use ferroid.Server.Processor.Packs.{flat}
use ferroid.Server.Pool.Worker.Serves.{bytes_of}
use ferroid.Server.Stream.{Task}
use ferroid.Server.Stream.Started.{
  new_tasks, machine_of, new_server-IsServing, length-replicate, length-new_tasks, task-new_tasks,
  worker_generator-FromMachine,
}
use ferroid.Server.Stream.Unique.{IsDistinct}
use ferroid.Server.Streams.{System, Queue, Reach}
use ferroid.Server.Streams.Chunks.{chunks_of}
use ferroid.Server.Streams.Distinct.{IsStart, delivered-IsDistinct}

abbrev new_queue : Queue
new_queue = record { is_open = true; jobs = [] }

unfoldable pub new_system : ServerConfig → System
unfolding new_tasks
new_system config = record {
  global_shutdown = false;
  cancelled = false;
  streams_inflight = 0;
  next_worker = 0;
  queues = replicate config.num_workers new_queue;
  tasks = new_tasks config config.num_workers 0;
  streams = [];
  delivered = [];
}

new_system-IsStart :
    (config : ServerConfig)
    → IsStart (snowflake_id twitter) config.num_workers (machine_of config) (new_system config)
unfolding new_system
new_system-IsStart config = record {
  tasks = length-new_tasks config config.num_workers 0;
  queues = length-replicate config.num_workers new_queue;
  empty = λ i h. ap (λ (t : Task). t.filled) (task-new_tasks config config.num_workers 0 i h);
  from_machine = λ i h.
      rw (task-new_tasks config config.num_workers 0 i h, from_zero i)
        (worker_generator-FromMachine config i);
  none = refl;
}
  where
    from_zero : (i : ℕ) → 0 + i ≡ i
    from_zero i = omega arith

-- A server with 1 to 1024 workers, from its start on: whatever the clients ask, wherever they leave, however
-- the tasks interleave, and whatever the channels and the clock do, with readings that the timestamp
-- field can hold, the chunks that clients have got are whole IDs with the machine numbers of the workers,
-- of which no two are the same, neither within a stream nor in two.
pub new_system-IsDistinct :
    (config : ServerConfig) {s : System}
    → 0 < config.num_workers
    → config.num_workers ≤ 1024
    → Reach (snowflake_id twitter) config (new_system config) s
    → (chunks : List (List ℕ)) × (chunks_of s.delivered ≡ map bytes_of chunks)
      × IsDistinct (flat chunks)
      × All
          (λ id.
            (i : ℕ) × (i < config.num_workers)
            × FromMachine (snowflake_id twitter) (machine_of config i) id)
          (flat chunks)
new_system-IsDistinct config some few r =
    delivered-IsDistinct (snowflake_id twitter) (snowflake_id-IsLawful twitter twitter-IsLayout)
      config config.num_workers (machine_of config) (new_server-IsServing config some few).1
      (new_system-IsStart config) r
