-- ===== src/Server/Pool/Manager.antt =====
-- `WorkerPool` of crates/ferroid-tonic-server/src/server/pool/manager.rs, with the global flag and
-- counter of service/handler.rs that its shutdown uses.
pub mod Dealt
pub mod Rounds
pub mod Closing
use ferroid.Common.{
  ℕ, ◌+◌, ◌%◌, ◌^◌, Bool, true, false, List, [], ◌∷◌, ◌++◌, length, get_or, set, ◌==◌,
  if◌then◌else◌,
}
use ferroid.Server.Pool.Error.{Error, channel_error, service_shutdown}
use ferroid.Server.Pool.Worker.{WorkRequest, shutdown}

-- The sending end of a worker's queue: `send` fails where the worker is gone.
pub record Sender : Type 0 where
  pub is_open : Bool
  pub queue : List WorkRequest

-- `cancelled` is the state of the shutdown token.
pub record WorkerPool : Type 0 where
  pub workers : List Sender
  pub next_worker : ℕ
  pub cancelled : Bool
  pub shutdown_timeout : ℕ

unfoldable pub new : List Sender → ℕ → WorkerPool
new workers shutdown_timeout = record {
  workers = workers;
  next_worker = 0;
  cancelled = false;
  shutdown_timeout = shutdown_timeout;
}

-- `fetch_add` wraps. With no worker `%` panics, see `send_to_next_worker`.
unfoldable pub next_worker_index : WorkerPool → ℕ × WorkerPool
next_worker_index pool = (
  pool.next_worker % length pool.workers,
  record {
    workers = pool.workers;
    next_worker = (pool.next_worker + 1) % 2 ^ 64;
    cancelled = pool.cancelled;
    shutdown_timeout = pool.shutdown_timeout;
  },
)

pub data SendResult : Type 0 where
  sent : SendResult
  failed : Error → SendResult
  division_by_zero : SendResult

abbrev pub gone : Sender
gone = record { is_open = false; queue = [] }

abbrev pub enqueue : Sender → WorkRequest → Sender
enqueue worker request = record { is_open = worker.is_open; queue = worker.queue ++ request ∷ [] }

abbrev pub with_workers : WorkerPool → List Sender → WorkerPool
with_workers pool workers = record {
  workers = workers;
  next_worker = pool.next_worker;
  cancelled = pool.cancelled;
  shutdown_timeout = pool.shutdown_timeout;
}

unfoldable pub send_to_next_worker : WorkerPool → WorkRequest → SendResult × WorkerPool
unfolding next_worker_index
send_to_next_worker pool request =
    if pool.cancelled
    then (failed service_shutdown, pool)
    else if length pool.workers == 0
    then (division_by_zero, pool)
    else (let (worker_idx, pool') = next_worker_index pool in
        let worker = get_or pool'.workers worker_idx gone in
        if worker.is_open
        then (sent, with_workers pool' (set pool'.workers worker_idx (enqueue worker request)))
        else (failed channel_error, pool'))

-- Many requests, one after the other.
unfoldable pub send_all : WorkerPool → List WorkRequest → List SendResult × WorkerPool
unfolding send_to_next_worker
send_all pool [] = ([], pool)
send_all pool (request ∷ requests) =
    let (result, pool') = send_to_next_worker pool request in
    let (results, pool'') = send_all pool' requests in (result ∷ results, pool'')

-- The pool with the global state of the service.
pub record Service : Type 0 where
  pub global_shutdown : Bool
  pub pool : WorkerPool

-- The wait for the streams in flight: `readings` are what the counter gives until the timeout fires.
-- Whether it ended before that.
unfoldable pub drain_streams : List ℕ → Bool
drain_streams [] = false
drain_streams (inflight ∷ rest) =
    let drained = drain_streams rest in if inflight == 0 then true else drained

-- The shutdown request to one worker.
abbrev pub notify : Bool → Sender → Sender
notify heard worker = if worker.is_open then enqueue worker (shutdown heard) else worker

-- From the worker `i` on; `heard` says of each worker whether its answer comes before the pool gives
-- up, after three seconds.
unfoldable pub notify_all : (ℕ → Bool) → ℕ → List Sender → List Sender
notify_all heard i [] = []
notify_all heard i (worker ∷ workers) = notify (heard i) worker ∷ notify_all heard (i + 1) workers

-- Whether the streams were drained in time, and the state that is left; the result is `Ok` in any
-- case.
unfoldable pub shut_down_pool : List ℕ → (ℕ → Bool) → Service → Bool × Service
unfolding drain_streams notify_all
shut_down_pool readings heard service =
    let pool = service.pool in
    (
      drain_streams readings,
      record {
        global_shutdown = true;
        pool = record {
          workers = notify_all heard 0 pool.workers;
          next_worker = pool.next_worker;
          cancelled = true;
          shutdown_timeout = pool.shutdown_timeout;
        };
      },
    )
