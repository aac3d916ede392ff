-- ===== src/Server/Stream.antt =====
-- A request through the whole server: `feed_chunks` of
-- crates/ferroid-tonic-server/src/server/streaming/coordinator.rs on the pool of pool/manager.rs, whose
-- workers serve the chunks one after the other. No other request is in the server, so a worker finds in
-- its queue the one that the pool has just sent.
pub mod Serving
pub mod Rounds
pub mod Unique
pub mod Started
use ferroid.Common.{
  ℕ, zero, suc, ◌+◌, ◌-◌, ◌*◌, Bool, true, false, not, min, List, [], ◌∷◌, ◌++◌, length, get_or,
  set, if◌then◌else◌,
}
use ferroid.Id.Snowflake.{SnowflakeId}
use ferroid.Server.Processor.{
  Channel, Handled, Exit, completed, returned_early, panicked, still_polling, handle_stream_request,
}
use ferroid.Server.Pool.Error.{Error, channel_error}
use ferroid.Server.Pool.Worker.{stream}
use ferroid.Server.Pool.Manager.{
  WorkerPool, with_workers, SendResult, sent, failed, division_by_zero, next_worker_index,
  send_to_next_worker,
}

-- What the task of a worker keeps between two requests.
pub record Task : Type 0 where
  pub filled : List ℕ
  pub generator : ℕ

abbrev pub no_task : Task
no_task = record { filled = []; generator = 0 }

pub record Server : Type 0 where
  pub pool : WorkerPool
  pub tasks : List Task

-- One round of the loop: its channel of chunks, and what the clock gives to the polls of its worker.
pub record Round : Type 0 where
  pub chunk_tx : Channel
  pub readings : List ℕ

-- `reported` says whether the client has got the error; `unfinished` where the rounds or the readings end first.
pub data Outcome : Type 0 where
  finished : Outcome
  stopped : (error : Error) (reported : Bool) → Outcome
  crashed : Outcome
  unfinished : Outcome

-- The chunks that the client has got.
pub record Fed : Type 0 where
  pub delivered : List (List ℕ)
  pub outcome : Outcome
  pub server : Server

-- The chunks forwarded until `resp_tx.send` fails, and whether none has failed; `resp_fails` says so
-- by the number of chunks forwarded before.
unfoldable pub forward : (ℕ → Bool) → ℕ → List (List ℕ) → List (List ℕ) × Bool
forward resp_fails forwarded [] = ([], true)
forward resp_fails forwarded (msg ∷ msgs) =
    let rest = forward resp_fails (forwarded + 1) msgs in
    if resp_fails forwarded then ([], false) else (msg ∷ rest.0, rest.1)

-- A worker that panics drops its queue.
unfoldable pub survives : Exit → Bool
survives completed = true
survives returned_early = true
survives panicked = false
survives still_polling = true

-- The worker `i` serves the request in its queue.
abbrev pub handled : SnowflakeId → ℕ → Server → ℕ → ℕ → Round → Handled
handled o ids_per_chunk server i chunk_size round =
    let task = get_or server.tasks i no_task in
    handle_stream_request o (ids_per_chunk * 8) chunk_size round.chunk_tx round.readings task.filled
      task.generator

-- The server after that.
unfoldable pub served : Server → ℕ → Handled → Server
unfolding survives
served server i h = record {
  pool =
      with_workers server.pool
        (set server.pool.workers i (record { is_open = survives h.exit; queue = [] }));
  tasks = set server.tasks i (record { filled = h.filled; generator = h.generator });
}

-- How a round ends, with the result of the pool, the chunks forwarded, whether the client took them all,
-- how the worker's request ended, whether an error would reach the client, the server with the request
-- still queued and after it, and what the rounds behind would give.
unfoldable pub round_end :
    SendResult → List (List ℕ) × Bool → Exit → Bool → Server → Server → Fed → Fed
round_end (failed e) msgs exit reported queued server rest = record {
  delivered = [];
  outcome = stopped e reported;
  server = queued;
}
round_end division_by_zero msgs exit reported queued server rest = record {
  delivered = [];
  outcome = crashed;
  server = queued;
}
round_end sent (msgs, false) exit reported queued server rest = record {
  delivered = msgs;
  outcome = stopped channel_error false;
  server = server;
}
round_end sent (msgs, true) still_polling reported queued server rest = record {
  delivered = msgs;
  outcome = unfinished;
  server = server;
}
round_end sent (msgs, true) exit reported queued server rest = record {
  delivered = msgs ++ rest.delivered;
  outcome = rest.outcome;
  server = rest.server;
}

module _ (o : SnowflakeId) (ids_per_chunk : ℕ) (resp_fails : ℕ → Bool) where
  unfoldable pub feed_stream : List Round → ℕ → ℕ → Server → Fed
  unfolding send_to_next_worker next_worker_index forward served round_end
  feed_stream rounds forwarded zero server = record {
    delivered = [];
    outcome = finished;
    server = server;
  }
  feed_stream [] forwarded (suc remaining) server = record {
    delivered = [];
    outcome = unfinished;
    server = server;
  }
  feed_stream (round ∷ rounds) forwarded (suc remaining) server =
      let chunk_size = min (suc remaining) ids_per_chunk in
      let (result, pool) =
        send_to_next_worker server.pool (stream chunk_size round.chunk_tx round.readings) in
      let queued : Server = record { pool = pool; tasks = server.tasks } in
      let i = (next_worker_index server.pool).0 in
      let h = handled o ids_per_chunk queued i chunk_size round in
      let server' = served queued i h in
      let msgs = forward resp_fails forwarded h.sent in
      let rest =
        feed_stream rounds (forwarded + length msgs.0) (suc remaining - chunk_size) server' in
      round_end result msgs h.exit (not (resp_fails forwarded)) queued server' rest
