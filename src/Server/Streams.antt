-- ===== src/Server/Streams.antt =====
-- The ID server with any number of requests at a time: `stream_ids` and its task of
-- crates/ferroid-tonic-server/src/server/service/handler.rs, `feed_chunks` of streaming/coordinator.rs,
-- `send_to_next_worker` and `shutdown` of pool/manager.rs, and the workers of pool/worker.rs, interleaved
-- in any order. A worker serves a chunk in one step, since no other task sees its buffer and its generator,
-- and with it the client gets what `feed_chunks` forwards of it. The server has a worker, so that `%` does
-- not panic.
pub mod Chunks
pub mod Marks
pub mod Distinct
pub mod Counted
pub mod Queued
pub mod Waiting
pub mod Quiet
pub mod Started
use ferroid.Common.{
  ℕ, ◌+◌, ◌-◌, ◌%◌, ◌^◌, ◌≤◌, ◌<◌, ◌≡◌, ◌≢◌, min, Bool, true, false, List, [], ◌∷◌, ◌++◌, map,
  length, All, get_or, set, if◌then◌else◌,
}
use ferroid.Id.Snowflake.{SnowflakeId}
use ferroid.Server.Config.{ServerConfig}
use ferroid.Server.Processor.{Channel, Handled, still_polling, handle_stream_request}
use ferroid.Server.Service.{
  StreamIds, streaming, service_shutdown, count_zero, count_too_large, stream_ids,
}
use ferroid.Server.Stream.{Task, no_task, forward, survives}

-- A request to a worker: a chunk of a stream, or the shutdown.
pub data Job : Type 0 where
  chunk : (stream chunk_size : ℕ) → Job
  stop : Job

-- The jobs of a worker in their order: the one that it has taken, and those in its queue.
pub record Queue : Type 0 where
  pub is_open : Bool
  pub jobs : List Job

abbrev pub no_queue : Queue
no_queue = record { is_open = false; jobs = [] }

-- Where a request stands: `checked` between the checks of `stream_ids` and its count of the streams in
-- flight; then in the loop of `feed_chunks`; `returned` where that has returned, with `Ok` or not.
pub data Phase : Type 0 where
  checked : (total_ids : ℕ) → Phase
  feeding : (remaining : ℕ) → Phase
  sending : (worker_idx chunk_size remaining : ℕ) → Phase
  waiting : (remaining : ℕ) → Phase
  returned : (ok : Bool) → Phase
  finished : Phase

-- `delivered` are the chunks that clients have got, with the number of their stream.
pub record System : Type 0 where
  pub global_shutdown : Bool
  pub cancelled : Bool
  pub streams_inflight : ℕ
  pub next_worker : ℕ
  pub queues : List Queue
  pub tasks : List Task
  pub streams : List Phase
  pub delivered : List (ℕ × List ℕ)

-- Where the checks pass, the stream is to be started.
unfoldable pub accept : StreamIds → System → System
accept (streaming total_ids) s = record s { streams = s.streams ++ checked total_ids ∷ [] }
accept service_shutdown s = s
accept count_zero s = s
accept (count_too_large count max) s = s

unfoldable pub check : ServerConfig → ℕ → System → System
check config count s = accept (stream_ids s.global_shutdown config count) s

-- The count of the streams in flight, and the task.
unfoldable pub enter : ℕ → ℕ → System → System
enter i total_ids s = record s {
  streams_inflight = (s.streams_inflight + 1) % 2 ^ 64;
  streams = set s.streams i (feeding total_ids);
}

-- The head of the loop of `feed_chunks`, up to the choice of the worker.
unfoldable pub choose : ℕ → ℕ → ℕ → System → System
choose ids_per_chunk i remaining s =
    let chunk_size = min remaining ids_per_chunk in
    if s.cancelled then (record s { streams = set s.streams i (returned false) }) else (record s {
      next_worker = (s.next_worker + 1) % 2 ^ 64;
      streams =
          set s.streams i
            (sending (s.next_worker % length s.queues) chunk_size (remaining - chunk_size));
    })

-- The send to the worker, whose queue has room, or which is gone.
unfoldable pub send : ℕ → ℕ → ℕ → ℕ → System → System
send i worker_idx chunk_size remaining s =
    let queue = get_or s.queues worker_idx no_queue in
    if queue.is_open
    then (record s {
      queues =
          set s.queues worker_idx
            (record { is_open = true; jobs = queue.jobs ++ chunk i chunk_size ∷ [] });
      streams = set s.streams i (waiting remaining);
    })
    else (record s { streams = set s.streams i (returned false) })

-- The stream goes on where all messages were forwarded, and else returns the error.
unfoldable pub after_reply : Bool → Phase → Phase
after_reply true (waiting remaining) = feeding remaining
after_reply false (waiting remaining) = returned false
after_reply accepted phase = phase

module _ (o : SnowflakeId) (chunk_bytes : ℕ) where
  abbrev pub handled : System → ℕ → ℕ → Channel → List ℕ → Handled
  handled s w chunk_size channel readings =
      let task = get_or s.tasks w no_task in
      handle_stream_request o chunk_bytes chunk_size channel readings task.filled task.generator

  -- The worker `w` serves a chunk of the stream `i`; the client takes messages until `resp_fails`.
  unfoldable pub serve : ℕ → ℕ → ℕ → List Job → Channel → List ℕ → (ℕ → Bool) → System → System
  unfolding forward survives after_reply
  serve w i chunk_size behind channel readings resp_fails s =
      let h = handled s w chunk_size channel readings in
      let (msgs, accepted) = forward resp_fails 0 h.sent in
      record s {
        queues = set s.queues w (record { is_open = survives h.exit; jobs = behind });
        tasks = set s.tasks w (record { filled = h.filled; generator = h.generator });
        streams = set s.streams i (after_reply accepted (get_or s.streams i finished));
        delivered = s.delivered ++ map (λ (msg : List ℕ). (i, msg)) msgs;
      }

-- A worker that is gone drops its queue, and with a chunk the channel on which the stream waits.
unfoldable pub discard : ℕ → ℕ → List Job → System → System
unfolding after_reply
discard w i behind s = record s {
  queues = set s.queues w (record { is_open = false; jobs = behind });
  streams = set s.streams i (after_reply true (get_or s.streams i finished));
}

-- The worker takes the shutdown.
unfoldable pub stop_worker : ℕ → List Job → System → System
stop_worker w behind s = record s {
  queues = set s.queues w (record { is_open = false; jobs = behind });
}

-- `feed_chunks` has returned.
unfoldable pub leave : ℕ → System → System
leave i s = record s {
  streams_inflight = (s.streams_inflight + 2 ^ 64 - 1) % 2 ^ 64;
  streams = set s.streams i finished;
}

unfoldable pub notify : ℕ → System → System
notify w s = record s {
  queues =
      set s.queues w
        (record { is_open = true; jobs = (get_or s.queues w no_queue).jobs ++ stop ∷ [] });
}

abbrev pub phase_of : System → ℕ → Phase
phase_of s i = get_or s.streams i finished

abbrev pub queue_of : System → ℕ → Queue
queue_of s w = get_or s.queues w no_queue

-- A queue has room for one job, beside the one that the worker has taken.
module _ (o : SnowflakeId) (config : ServerConfig) where
  pub data Step (s : System) : System → Type 0 where
    checks : (count : ℕ) → Step s (check config count s)
    enters : (i total_ids : ℕ) → phase_of s i ≡ checked total_ids → Step s (enter i total_ids s)
    chooses :
        (i remaining : ℕ)
        → phase_of s i ≡ feeding remaining
        → 0 < remaining
        → Step s (choose config.ids_per_chunk i remaining s)
    sends :
        (i w chunk_size remaining : ℕ)
        → phase_of s i ≡ sending w chunk_size remaining
        → ((queue_of s w).is_open ≡ true → length (queue_of s w).jobs ≤ 1)
        → Step s (send i w chunk_size remaining s)
    serves :
        (w i chunk_size : ℕ) (behind : List Job) (channel : Channel) (readings : List ℕ)
        (resp_fails : ℕ → Bool)
        → queue_of s w ≡ record { is_open = true; jobs = chunk i chunk_size ∷ behind }
        → All (λ now. now ≤ o.max_timestamp) readings
        → (handled o config.chunk_bytes s w chunk_size channel readings).exit ≢ still_polling
        → Step s (serve o config.chunk_bytes w i chunk_size behind channel readings resp_fails s)
    discards :
        (w i chunk_size : ℕ) (behind : List Job)
        → queue_of s w ≡ record { is_open = false; jobs = chunk i chunk_size ∷ behind }
        → Step s (discard w i behind s)
    stops :
        (w : ℕ) (behind : List Job)
        → queue_of s w ≡ record { is_open = true; jobs = stop ∷ behind }
        → Step s (stop_worker w behind s)
    ends :
        (i : ℕ)
        → phase_of s i ≡ feeding 0
        → Step s (record s { streams = set s.streams i (returned true) })
    leaves : (i : ℕ) (ok : Bool) → phase_of s i ≡ returned ok → Step s (leave i s)
    shuts_down : Step s (record s { global_shutdown = true })
    cancels : s.global_shutdown ≡ true → Step s (record s { cancelled = true })
    notifies :
        (w : ℕ)
        → s.cancelled ≡ true
        → (queue_of s w).is_open ≡ true
        → length (queue_of s w).jobs ≤ 1
        → Step s (notify w s)

  pub data Reach (start : System) : System → Type 0 where
    here : Reach start start
    later : {s t : System} → Reach start s → Step s t → Reach start t
