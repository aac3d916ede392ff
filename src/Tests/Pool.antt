-- ===== src/Tests/Pool.antt =====
-- The workers of the server and their pool.
use ferroid.Common.{
  ℕ, ◌*◌, ◌≡◌, ◌≤◌, refl, arith, true, false, List, [], ◌∷◌, ◌++◌, length, All, replicate, get_or,
}
use ferroid.Server.Config.{ServerConfig}
use ferroid.Server.Service.{stream_ids, StreamIds}
use ferroid.Server.Processor.Packs.{open_channel}
use ferroid.Server.Pool.Error.{service_shutdown}
use ferroid.Server.Pool.Worker.{WorkRequest, stream, shutdown, shut_down, worker}
use ferroid.Server.Pool.Worker.Serves.{IsServable, Served, requested, last_stop, worker-Served}
use ferroid.Server.Pool.Manager.{
  Sender, WorkerPool, Service, failed, sent, gone, send_to_next_worker, send_all, shut_down_pool,
}
use ferroid.Server.Pool.Manager.Dealt.{dealt}
use ferroid.Server.Pool.Manager.Rounds.{send_all_fair}
use ferroid.Server.Pool.Manager.Closing.{shut_down_pool-Served}
use ferroid.Tests.Snowflakes.{ids, law, begin, begin-FromMachine, early_enough}
use ferroid.Tests.Workers.{readings, enough}

-- A request of three IDs, and then the shutdown.
abbrev request : WorkRequest
request = stream 3 open_channel readings

abbrev queue : List WorkRequest
queue = request ∷ shutdown true ∷ []

pub All-fit : All (λ now. now ≤ ids.max_timestamp) readings
All-fit = let nine = early_enough 9 (omega arith) in (nine, (nine, (nine, (nine, (nine, tt)))))

servable : IsServable ids 2 queue begin
servable = (refl, enough, All-fit, tt)

worker-Served_example :
    (served : List ℕ) × Served ids 2 7 begin
      (requested queue)
      (last_stop queue)
      served
      (worker ids (2 * 8) queue begin)
worker-Served_example =
    worker-Served ids law 2 queue begin 7 (omega arith) begin-FromMachine servable

-- Two workers; the first has a request of three IDs in its queue.
abbrev busy : Sender
busy = record { is_open = true; queue = request ∷ [] }

abbrev idle : Sender
idle = record { is_open = true; queue = [] }

abbrev pool : WorkerPool
pool = record {
  workers = busy ∷ idle ∷ [];
  next_worker = 5;
  cancelled = false;
  shutdown_timeout = 10;
}

send_all_fair_example :
    ((send_all pool (replicate 6 request)).0 ≡ replicate (length (replicate 6 request)) sent)
    × ((get_or (send_all pool (replicate 6 request)).1.workers 1 gone).queue
        ≡ (get_or pool.workers 1 gone).queue ++ dealt 2 pool.next_worker 1 (replicate 6 request))
    × (length (dealt 2 pool.next_worker 1 (replicate 6 request)) ≡ 3)
send_all_fair_example =
    send_all_fair 2 3 1 (replicate 6 request) pool refl refl (refl, (refl, tt)) (omega arith)
      (omega arith) (omega arith)

abbrev service : Service
service = record { global_shutdown = false; pool = pool }

abbrev config : ServerConfig
config = record {
  num_workers = 2;
  shard_offset = 0;
  ids_per_chunk = 2;
  chunk_bytes = 16;
  stream_buffer_size = 8;
  max_allowed_ids = 100;
  server_addr = [];
  uds = false;
  shutdown_timeout = 10;
}

shut_down_pool-Served_example :
    let after = (shut_down_pool (3 ∷ 0 ∷ []) (λ _. true) service).1 in
    (stream_ids after.global_shutdown config 3 ≡ StreamIds.service_shutdown)
    × (send_to_next_worker after.pool request ≡ (failed service_shutdown, after.pool))
    × ((served : List ℕ) × Served ids 2 7 begin
          (requested (request ∷ []))
          (shut_down true)
          served
          (worker ids (2 * 8) (get_or after.pool.workers 0 gone).queue begin))
shut_down_pool-Served_example =
    shut_down_pool-Served ids law 2 (3 ∷ 0 ∷ []) (λ _. true) service config 3 request 0 begin 7
      (omega arith) (omega arith) refl tt begin-FromMachine (refl, enough, All-fit, tt)
