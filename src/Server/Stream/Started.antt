-- ===== src/Server/Stream/Started.antt =====
-- `IdService::new` of crates/ferroid-tonic-server/src/server/service/handler.rs: the pool, and the tasks
-- that it spawns.
use ferroid.Common.{
  ℕ, zero, suc, ◌+◌, ◌%◌, ◌^◌, ◌≤◌, ◌<◌, ◌≡◌, refl, ap, ◌∙◌, arith, true, List, [], ◌∷◌, length,
  All, replicate, get_or,
}
use ferroid.Id.SnowflakeLayout.{twitter, twitter-IsLayout, snowflake_id, snowflake_id-IsLawful}
use ferroid.Generator.Snowflake.Basic
use ferroid.Generator.Snowflake.Basic.Run.{FromMachine}
use ferroid.Server.Config.{ServerConfig}
use ferroid.Server.Service.{worker_generator, machine_number}
use ferroid.Server.Pool.Manager
use ferroid.Server.Pool.Manager.{Sender}
use ferroid.Server.Stream.{Task, no_task, Server}
use ferroid.Server.Stream.Serving.{IsServing}

abbrev new_sender : Sender
new_sender = record { is_open = true; queue = [] }

-- `count` workers, from `worker_id` on.
unfoldable pub new_tasks : ServerConfig → ℕ → ℕ → List Task
new_tasks config zero worker_id = []
new_tasks config (suc count) worker_id =
    record { filled = []; generator = worker_generator config worker_id }
    ∷ new_tasks config count (worker_id + 1)

unfoldable pub new_server : ServerConfig → Server
unfolding new_tasks
new_server config = record {
  pool = Manager.new (replicate config.num_workers new_sender) config.shutdown_timeout;
  tasks = new_tasks config config.num_workers 0;
}

pub length-replicate {ℓ} : {A : Type ℓ} (n : ℕ) (x : A) → length (replicate n x) ≡ n
length-replicate zero x = refl
length-replicate (suc n) x = ap suc (length-replicate n x)

All-replicate {ℓ κ} : {A : Type ℓ} (P : A → Type κ) (n : ℕ) (x : A) → P x → All P (replicate n x)
All-replicate P zero x h = tt
All-replicate P (suc n) x h = (h, All-replicate P n x h)

pub length-new_tasks :
    (config : ServerConfig) (count worker_id : ℕ)
    → length (new_tasks config count worker_id) ≡ count
unfolding new_tasks
length-new_tasks config zero worker_id = refl
length-new_tasks config (suc count) worker_id =
    ap suc (length-new_tasks config count (worker_id + 1))

pub task-new_tasks :
    (config : ServerConfig) (count worker_id i : ℕ)
    → i < count
    → get_or (new_tasks config count worker_id) i no_task
      ≡ record { filled = []; generator = worker_generator config (worker_id + i) }
unfolding new_tasks
task-new_tasks config zero worker_id i h = absurd (omega arith)
task-new_tasks config (suc count) worker_id zero h =
    ap (λ (k : ℕ). record { filled = []; generator = worker_generator config k }) (omega arith)
task-new_tasks config (suc count) worker_id (suc i) h =
    task-new_tasks config count (worker_id + 1) i (omega arith)
    ∙ ap (λ (k : ℕ). record { filled = []; generator = worker_generator config k }) (omega arith)

-- The machine number of a worker: what the field keeps of the sum.
abbrev pub machine_of : ServerConfig → ℕ → ℕ
machine_of config worker_id = (config.shard_offset + worker_id) % 2 ^ 64 % 2 ^ 10

pub worker_generator-FromMachine :
    (config : ServerConfig) (i : ℕ)
    → FromMachine (snowflake_id twitter) (machine_of config i) (worker_generator config i)
unfolding worker_generator Basic.new Basic.from_components
worker_generator-FromMachine config i = (
  machine_number ((config.shard_offset + i) % 2 ^ 64),
  (snowflake_id-IsLawful twitter twitter-IsLayout).canonical 0 ((config.shard_offset + i) % 2 ^ 64)
      0,
)

-- With 1 to 1024 workers, the server starts with all of them waiting, with empty buffers, on a pool that
-- is not shut down; their generators have valid states with pairwise different machine numbers,
-- whatever the shard offset is.
pub new_server-IsServing :
    (config : ServerConfig)
    → 0 < config.num_workers
    → config.num_workers ≤ 1024
    → IsServing (snowflake_id twitter) config.num_workers (machine_of config) (new_server config)
      × ((j k : ℕ)
          → j < config.num_workers
          → k < config.num_workers
          → machine_of config j ≡ machine_of config k
          → j ≡ k)
unfolding new_server Manager.new
new_server-IsServing config some few = (
  record {
    ready = record {
      not_cancelled = refl;
      number = length-replicate config.num_workers new_sender;
      some_worker = some;
      all_open = All-replicate _ config.num_workers new_sender refl;
    };
    tasks = length-new_tasks config config.num_workers 0;
    drained = λ i h. ap (λ (t : Task). t.filled) (task-new_tasks config config.num_workers 0 i h);
    from_machine = λ i h.
        rw (task-new_tasks config config.num_workers 0 i h, from_zero i)
          (worker_generator-FromMachine config i);
  },
  λ j k hj hk e. omega arith,
)
  where
    from_zero : (i : ℕ) → 0 + i ≡ i
    from_zero i = omega arith
