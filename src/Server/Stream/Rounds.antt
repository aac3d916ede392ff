-- ===== src/Server/Stream/Rounds.antt =====
-- One round of a request while no channel fails.
use native.Mathlib.Nat.{mod-lt}
use ferroid.Common.{
  ℕ, zero, suc, ◌+◌, ◌-◌, ◌^◌, ◌≤◌, ◌<◌, ◌≡◌, refl, ap, ◌∙◌, Bool, true, false, not, min, List, [],
  ◌∷◌, ◌++◌, length, All, take,
}
use ferroid.Id.Snowflake.{SnowflakeId, IsLawful}
use ferroid.Generator.Snowflake.Basic.{issued}
use ferroid.Server.Processor.{Exit, completed}
use ferroid.Server.Processor.Packs.{Serves, open_channel, handle_stream_request-Serves}
use ferroid.Server.Processor.Keeps.{Keeps, handle_stream_request-Keeps}
use ferroid.Server.Pool.Worker.{stream}
use ferroid.Server.Pool.Worker.Serves.{bytes_of, packed_ids-take}
use ferroid.Server.Pool.Manager.{
  SendResult, sent, WorkerPool, send_to_next_worker, next_worker_index,
}
use ferroid.Server.Pool.Manager.Rounds.{IsReady, after_send, send_one}
use ferroid.Server.Stream.{Server, Round, Fed, forward, round_end, handled, served, feed_stream}
use ferroid.Server.Stream.Serving.{task_of, IsServing}

pub forward_all :
    (resp_fails : ℕ → Bool) (forwarded : ℕ) (msgs : List (List ℕ))
    → ((k : ℕ) → resp_fails k ≡ false)
    → forward resp_fails forwarded msgs ≡ (msgs, true)
unfolding forward
forward_all resp_fails forwarded [] works = refl
forward_all resp_fails forwarded (msg ∷ msgs) works =
    rw (works forwarded, forward_all resp_fails (forwarded + 1) msgs works, forward) refl

round_end_sent :
    (result : SendResult) (msgs : List (List ℕ)) (exit : Exit) (reported : Bool)
    (queued server : Server) (rest : Fed)
    → result ≡ sent
    → exit ≡ completed
    → round_end result (msgs, true) exit reported queued server rest
      ≡ record { delivered = msgs ++ rest.delivered; outcome = rest.outcome; server = rest.server }
unfolding round_end
round_end_sent result msgs exit reported queued server rest e done = rw (e, done, round_end) refl

module _ (o : SnowflakeId) (ids_per_chunk : ℕ) where
  -- The server after a round in which the worker `i` serves its chunk.
  abbrev pub after_round : Server → ℕ → ℕ → Round → Server
  after_round server i chunk_size round =
      let pool =
        (send_to_next_worker server.pool (stream chunk_size round.chunk_tx round.readings)).1 in
      let queued : Server = record { pool = pool; tasks = server.tasks } in
      served queued i (handled o ids_per_chunk queued i chunk_size round)

  -- The rounds of a request: channels that stay open, and readings within the timestamp field that are
  -- enough for the generator of the worker whose turn it is.
  abbrev pub IsServable : List Round → ℕ → Server → Type 0
  IsServable rounds zero server = Unit
  IsServable [] (suc remaining) server = ⊥
  IsServable (round ∷ rounds) (suc remaining) server =
      let chunk_size = min (suc remaining) ids_per_chunk in
      let i = (next_worker_index server.pool).0 in
      (round.chunk_tx ≡ open_channel)
      × (chunk_size ≤ length (issued o round.readings (task_of server i).generator))
      × All (λ now. now ≤ o.max_timestamp) round.readings
      × IsServable rounds (suc remaining - chunk_size) (after_round server i chunk_size round)

module _ (o : SnowflakeId) (law : IsLawful o) (ids_per_chunk n : ℕ) (machine : ℕ → ℕ) where
  -- A chunk of the worker `i` in the round: its IDs, as they are packed, and its generator after them.
  pub handled-Serves :
      (server : Server) (i chunk_size : ℕ) (round : Round)
      → 0 < ids_per_chunk
      → IsServing o n machine server
      → i < n
      → round.chunk_tx ≡ open_channel
      → chunk_size ≤ length (issued o round.readings (task_of server i).generator)
      → All (λ now. now ≤ o.max_timestamp) round.readings
      → Serves
          (bytes_of (take chunk_size (issued o round.readings (task_of server i).generator)))
          (handled o ids_per_chunk server i chunk_size round)
        × Keeps o
            (machine i)
            (task_of server i).generator
            (take chunk_size (issued o round.readings (task_of server i).generator))
            (handled o ids_per_chunk server i chunk_size round).generator
  handled-Serves server i chunk_size round room s lt opened enough fits =
      let generator = (task_of server i).generator in
      let (done, empty, bytes) =
        handle_stream_request-Serves o ids_per_chunk chunk_size round.readings generator room
          enough in
      rw (opened, s.drained i lt)
        (
          (done, empty, bytes ∙ packed_ids-take chunk_size (issued o round.readings generator)),
          handle_stream_request-Keeps o law ids_per_chunk chunk_size (machine i) round.readings
              generator room enough (s.from_machine i lt) fits,
        )

  pub next_worker_index-lt : (pool : WorkerPool) → IsReady n pool → (next_worker_index pool).0 < n
  unfolding next_worker_index
  next_worker_index-lt pool ready = rw ready.number (mod-lt pool.next_worker ready.some_worker)

  -- The pool sends the chunk to the worker whose turn it is.
  pub after_round_lem :
      (server : Server) (i chunk_size : ℕ) (round : Round)
      → IsReady n server.pool
      → server.pool.next_worker + 1 < 2 ^ 64
      → after_round o ids_per_chunk server i chunk_size round
        ≡ served
            (record {
              pool = after_send n server.pool (stream chunk_size round.chunk_tx round.readings);
              tasks = server.tasks;
            })
            i
            (handled o ids_per_chunk server i chunk_size round)
  after_round_lem server i chunk_size round ready fits =
      rw (send_one n server.pool (stream chunk_size round.chunk_tx round.readings) ready fits) refl

  pub feed_round :
      (resp_fails : ℕ → Bool) (round : Round) (rounds : List Round) (forwarded remaining : ℕ)
      (server : Server)
      → ((k : ℕ) → resp_fails k ≡ false)
      → IsReady n server.pool
      → server.pool.next_worker + 1 < 2 ^ 64
      → (let h =
            handled o ids_per_chunk server
              (next_worker_index server.pool).0
              (min (suc remaining) ids_per_chunk)
              round in
          let rest =
            feed_stream o ids_per_chunk resp_fails rounds
              (forwarded + length h.sent)
              (suc remaining - min (suc remaining) ids_per_chunk)
              (after_round o ids_per_chunk server
                (next_worker_index server.pool).0
                (min (suc remaining) ids_per_chunk)
                round) in
          h.exit ≡ completed
          → feed_stream o ids_per_chunk resp_fails (round ∷ rounds) forwarded (suc remaining) server
            ≡ record {
              delivered = h.sent ++ rest.delivered;
              outcome = rest.outcome;
              server = rest.server;
            })
  unfolding feed_stream
  feed_round resp_fails round rounds forwarded remaining server works ready fits done =
      let c = min (suc remaining) ids_per_chunk in
      let i = (next_worker_index server.pool).0 in
      let h = handled o ids_per_chunk server i c round in
      let request = stream c round.chunk_tx round.readings in
      let queued : Server = record {
        pool = (send_to_next_worker server.pool request).1;
        tasks = server.tasks;
      } in
      let rest = λ (msgs : List (List ℕ)).
        feed_stream o ids_per_chunk resp_fails rounds (forwarded + length msgs) (suc remaining - c)
          (served queued i h) in
      ap
        (λ (msgs : List (List ℕ) × Bool).
          round_end (send_to_next_worker server.pool request).0 msgs h.exit
            (not (resp_fails forwarded)) queued (served queued i h) (rest msgs.0))
        (forward_all resp_fails forwarded h.sent works)
      ∙ round_end_sent _ h.sent h.exit _ _ _ (rest h.sent)
          (ap (λ (r : SendResult × WorkerPool). r.0) (send_one n server.pool request ready fits))
          done
