-- ===== src/Server/Pool/Worker.antt =====
-- `WorkRequest` of crates/ferroid-tonic-server/src/server/streaming/request.rs and `worker_loop` of
-- pool/worker.rs. The queue is the list of what `recv` will give until all senders are gone.
pub mod Serves
use ferroid.Common.{ℕ, Bool, List, [], ◌∷◌}
use ferroid.Id.Snowflake.{SnowflakeId}
use ferroid.Server.Processor.{
  Channel, Handled, completed, returned_early, panicked, still_polling, handle_stream_request,
}

-- A stream request comes with the readings of the clock that its polls will take, a shutdown with
-- whether the sender still waits for the answer.
pub data WorkRequest : Type 0 where
  stream : (chunk_size : ℕ) (chunk_tx : Channel) (readings : List ℕ) → WorkRequest
  shutdown : (heard : Bool) → WorkRequest

pub data Stop : Type 0 where
  queue_closed : Stop
  shut_down : (acknowledged : Bool) → Stop
  crashed : Stop
  out_of_readings : Stop

-- What a worker leaves: its buffer, its generator, and the chunks sent for each request.
pub record WorkerRun : Type 0 where
  pub filled : List ℕ
  pub generator : ℕ
  pub replies : List (List (List ℕ))
  pub stop : Stop

-- One more request, answered with these chunks.
unfoldable pub answered : List (List ℕ) → WorkerRun → WorkerRun
answered sent run = record {
  filled = run.filled;
  generator = run.generator;
  replies = sent ∷ run.replies;
  stop = run.stop;
}

module _ (o : SnowflakeId) (chunk_bytes : ℕ) where
  unfoldable pub worker_loop : List WorkRequest → List ℕ → ℕ → WorkerRun
  unfolding answered
  worker_loop [] filled generator = record {
    filled = filled;
    generator = generator;
    replies = [];
    stop = queue_closed;
  }
  worker_loop (shutdown heard ∷ queue) filled generator = record {
    filled = filled;
    generator = generator;
    replies = [];
    stop = shut_down heard;
  }
  worker_loop (stream chunk_size chunk_tx readings ∷ queue) filled generator =
      let h = handle_stream_request o chunk_bytes chunk_size chunk_tx readings filled generator in
      let run = worker_loop queue h.filled h.generator in
      elim h.exit [
        | completed ↦ answered h.sent run
        | returned_early ↦ answered h.sent run
        | panicked ↦ record {
          filled = h.filled;
          generator = h.generator;
          replies = h.sent ∷ [];
          stop = crashed;
        }
        | still_polling ↦ record {
          filled = h.filled;
          generator = h.generator;
          replies = h.sent ∷ [];
          stop = out_of_readings;
        }
      ]

  -- A worker starts with an empty buffer and its own generator.
  unfoldable pub worker : List WorkRequest → ℕ → WorkerRun
  unfolding worker_loop
  worker queue generator = worker_loop queue [] generator
