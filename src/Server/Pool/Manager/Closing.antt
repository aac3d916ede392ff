-- ===== src/Server/Pool/Manager/Closing.antt =====
-- What the shutdown of the pool leaves behind.
use ferroid.Common.{
  ℕ, zero, suc, ◌+◌, ◌*◌, ◌<◌, ◌≡◌, refl, ap, ◌∙◌, arith, Bool, true, List, [], ◌∷◌, ◌++◌, length,
  get_or,
}
use ferroid.Id.Snowflake.{SnowflakeId, IsLawful}
use ferroid.Generator.Snowflake.Basic.Run.{FromMachine}
use ferroid.Server.Config.{ServerConfig}
use ferroid.Server.Service.{stream_ids, StreamIds}
use ferroid.Server.Pool.Error.{service_shutdown}
use ferroid.Server.Pool.Worker.{WorkRequest, stream, shutdown, shut_down, worker}
use ferroid.Server.Pool.Worker.Serves.{IsServable, Served, requested, last_stop, worker-Served}
use ferroid.Server.Pool.Manager.{
  Sender, Service, failed, gone, notify, notify_all, send_to_next_worker, shut_down_pool,
}

get_or-notify_all :
    (heard : ℕ → Bool) (i k : ℕ) (workers : List Sender)
    → i < length workers
    → get_or (notify_all heard k workers) i gone ≡ notify (heard (k + i)) (get_or workers i gone)
unfolding notify_all
get_or-notify_all heard i k [] h = absurd (omega arith)
get_or-notify_all heard zero k (worker ∷ workers) h =
    ap (λ (n : ℕ). notify (heard n) worker) (omega arith)
get_or-notify_all heard (suc i) k (worker ∷ workers) h =
    get_or-notify_all heard i (k + 1) workers (omega arith)
    ∙ ap (λ (n : ℕ). notify (heard n) (get_or workers i gone)) (omega arith)

notified :
    (heard : ℕ → Bool) (i : ℕ) (workers : List Sender)
    → i < length workers
    → get_or (notify_all heard 0 workers) i gone ≡ notify (heard i) (get_or workers i gone)
notified heard i workers h =
    get_or-notify_all heard i 0 workers h
    ∙ ap (λ (n : ℕ). notify (heard n) (get_or workers i gone)) (omega arith)

-- A queue before the shutdown.
abbrev pub AreStreams : List WorkRequest → Type 0
AreStreams [] = Unit
AreStreams (stream chunk_size chunk_tx readings ∷ queue) = AreStreams queue
AreStreams (shutdown heard ∷ queue) = ⊥

requested-shutdown :
    (queue : List WorkRequest) (heard : Bool)
    → requested (queue ++ shutdown heard ∷ []) ≡ requested queue
requested-shutdown [] heard = refl
requested-shutdown (stream chunk_size chunk_tx readings ∷ queue) heard =
    ap (λ (n : ℕ). chunk_size + n) (requested-shutdown queue heard)
requested-shutdown (shutdown first ∷ queue) heard = refl

last_stop-shutdown :
    (queue : List WorkRequest) (heard : Bool)
    → AreStreams queue
    → last_stop (queue ++ shutdown heard ∷ []) ≡ shut_down heard
last_stop-shutdown [] heard h = refl
last_stop-shutdown (stream chunk_size chunk_tx readings ∷ queue) heard h =
    last_stop-shutdown queue heard h
last_stop-shutdown (shutdown first ∷ queue) heard h = absurd h

module _ (o : SnowflakeId) (ids_per_chunk : ℕ) where
  IsServable-shutdown :
      (queue : List WorkRequest) (generator : ℕ) (heard : Bool)
      → IsServable o ids_per_chunk queue generator
      → IsServable o ids_per_chunk (queue ++ shutdown heard ∷ []) generator
  IsServable-shutdown [] generator heard h = tt
  IsServable-shutdown (stream chunk_size chunk_tx readings ∷ queue) generator heard
        (e, enough, fits, rest) =
      (e, enough, fits, IsServable-shutdown queue _ heard rest)
  IsServable-shutdown (shutdown first ∷ queue) generator heard h = tt

-- After the shutdown the service refuses every call and the pool every request, and stays as it is.
pub shut_down_pool-refuses :
    (readings : List ℕ) (heard : ℕ → Bool) (service : Service) (config : ServerConfig) (count : ℕ)
    (request : WorkRequest)
    → let after = (shut_down_pool readings heard service).1 in
      (stream_ids after.global_shutdown config count ≡ StreamIds.service_shutdown)
      × (send_to_next_worker after.pool request ≡ (failed service_shutdown, after.pool))
unfolding shut_down_pool send_to_next_worker stream_ids
shut_down_pool-refuses readings heard service config count request = (refl, refl)

-- After the shutdown the service refuses every call and the pool every request. A worker that still
-- takes requests, with room for an ID and a valid generator, still serves those that were queued before,
-- if their channels stay open and its clock gives enough readings, and then it stops, with the
-- acknowledgement that the pool waits for.
pub shut_down_pool-Served :
    (o : SnowflakeId)
    → IsLawful o
    → (ids_per_chunk : ℕ) (readings : List ℕ) (heard : ℕ → Bool) (service : Service)
      (config : ServerConfig) (count : ℕ) (request : WorkRequest) (i generator machine : ℕ)
    → 0 < ids_per_chunk
    → i < length service.pool.workers
    → (get_or service.pool.workers i gone).is_open ≡ true
    → AreStreams (get_or service.pool.workers i gone).queue
    → FromMachine o machine generator
    → IsServable o ids_per_chunk (get_or service.pool.workers i gone).queue generator
    → let after = (shut_down_pool readings heard service).1 in
      (stream_ids after.global_shutdown config count ≡ StreamIds.service_shutdown)
      × (send_to_next_worker after.pool request ≡ (failed service_shutdown, after.pool))
      × ((ids : List ℕ) × Served o ids_per_chunk machine generator
            (requested (get_or service.pool.workers i gone).queue)
            (shut_down (heard i))
            ids
            (worker o (ids_per_chunk * 8) (get_or after.pool.workers i gone).queue generator))
unfolding shut_down_pool
shut_down_pool-Served o law ids_per_chunk readings heard service config count request i generator
      machine room within opened only f servable =
    let (refused, failure) = shut_down_pool-refuses readings heard service config count request in
    (
      refused,
      failure,
      rw
          (
            notified heard i service.pool.workers within,
            opened,
            ← requested-shutdown queue (heard i),
            ← last_stop-shutdown queue (heard i) only,
          )
          (worker-Served o law ids_per_chunk (queue ++ shutdown (heard i) ∷ []) generator machine
            room f (IsServable-shutdown o ids_per_chunk queue generator (heard i) servable)),
    )
  where
    queue : List WorkRequest
    queue = (get_or service.pool.workers i gone).queue
