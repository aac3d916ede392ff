-- ===== src/Server/Pool/Worker/Serves.antt =====
-- What a worker sends over its life while its channels stay open.
use mathlib.Core.List.{append_assoc}
use native.Mathlib.Nat.{le_refl}
use ferroid.Common.{
  ℕ, zero, suc, ◌+◌, ◌*◌, ◌≤◌, ◌<◌, ◌≡◌, refl, sym, ap, ◌∙◌, arith, List, [], ◌∷◌, ◌++◌, length,
  length-append, All, All-append, All-mono, All-take, take, length-take, IsAscending,
  IsAscending-take, IsAscending-append,
}
use ferroid.Id.Snowflake.{SnowflakeId, IsLawful}
use ferroid.Generator.Snowflake.Basic.{issued}
use ferroid.Generator.Snowflake.Basic.Run.{FromMachine, issued-IsAscending}
use ferroid.Server.Processor.{Handled, to_le_bytes, completed, handle_stream_request}
use ferroid.Server.Processor.Packs.{flat, packed_ids, open_channel, handle_stream_request-Serves}
use ferroid.Server.Processor.Keeps.{Keeps, handle_stream_request-Keeps}
use ferroid.Server.Pool.Worker.{
  WorkRequest, stream, shutdown, WorkerRun, Stop, queue_closed, shut_down, answered, worker_loop,
  worker,
}

-- The bytes of these IDs, in order.
abbrev pub bytes_of : List ℕ → List ℕ
bytes_of [] = []
bytes_of (id ∷ ids) = to_le_bytes 8 id ++ bytes_of ids

pub bytes_of-append : (xs ys : List ℕ) → bytes_of (xs ++ ys) ≡ bytes_of xs ++ bytes_of ys
bytes_of-append [] ys = refl
bytes_of-append (x ∷ xs) ys =
    ap (λ (t : List ℕ). to_le_bytes 8 x ++ t) (bytes_of-append xs ys)
    ∙ sym (append_assoc (to_le_bytes 8 x) (bytes_of xs) (bytes_of ys))

pub packed_ids-take : (n : ℕ) (ids : List ℕ) → packed_ids n ids ≡ bytes_of (take n ids)
packed_ids-take zero ids = refl
packed_ids-take (suc n) [] = refl
packed_ids-take (suc n) (id ∷ ids) =
    ap (λ (t : List ℕ). to_le_bytes 8 id ++ t) (packed_ids-take n ids)

-- All bytes sent, for all requests.
abbrev pub sent_bytes : List (List (List ℕ)) → List ℕ
sent_bytes [] = []
sent_bytes (reply ∷ replies) = flat reply ++ sent_bytes replies

-- How a worker stops that serves its queue.
abbrev pub last_stop : List WorkRequest → Stop
last_stop [] = queue_closed
last_stop (stream chunk_size chunk_tx readings ∷ queue) = last_stop queue
last_stop (shutdown heard ∷ queue) = shut_down heard

-- The number of IDs that a queue asks for, up to a shutdown.
abbrev pub requested : List WorkRequest → ℕ
requested [] = 0
requested (stream chunk_size chunk_tx readings ∷ queue) = chunk_size + requested queue
requested (shutdown heard ∷ queue) = 0

module _ (o : SnowflakeId) (ids_per_chunk : ℕ) where
  -- Up to a shutdown, stream requests whose channels stay open and whose clock gives enough readings, all within the
  -- timestamp field, for the generator in the state that the requests before have left.
  abbrev pub IsServable : List WorkRequest → ℕ → Type 0
  IsServable [] generator = Unit
  IsServable (stream chunk_size chunk_tx readings ∷ queue) generator =
      (chunk_tx ≡ open_channel)
      × (chunk_size ≤ length (issued o readings generator))
      × All (λ now. now ≤ o.max_timestamp) readings
      × IsServable queue
          (handle_stream_request o (ids_per_chunk * 8) chunk_size open_channel readings []
            generator).generator
  IsServable (shutdown heard ∷ queue) generator = Unit

  -- A run that served everything and stopped so: these IDs, ascending, above the state at the start and not above
  -- the state at the end, of one machine; their bytes are what was sent, and the buffer is empty.
  pub record Served (machine start count : ℕ) (stop : Stop) (ids : List ℕ) (run : WorkerRun)
      : Type 0 where
    pub drained : run.filled ≡ []
    pub stopped : run.stop ≡ stop
    pub counted : length ids ≡ count
    pub sent : sent_bytes run.replies ≡ bytes_of ids
    pub ascending : IsAscending ids
    pub after : All (λ id. start < id) ids
    pub from_machine : All (FromMachine o machine) ids
    pub state : Keeps o machine start ids run.generator

module _ (o : SnowflakeId) (law : IsLawful o) (ids_per_chunk : ℕ) where
  abbrev handled : ℕ → List ℕ → ℕ → Handled
  handled chunk_size readings generator =
      handle_stream_request o (ids_per_chunk * 8) chunk_size open_channel readings [] generator

  loop_serves :
      (chunk_size : ℕ) (readings : List ℕ) (queue : List WorkRequest) (generator : ℕ)
      → (handled chunk_size readings generator).exit ≡ completed
      → (handled chunk_size readings generator).filled ≡ []
      → worker_loop o
          (ids_per_chunk * 8)
          (stream chunk_size open_channel readings ∷ queue)
          []
          generator
        ≡ answered (handled chunk_size readings generator).sent (
            worker_loop o
              (ids_per_chunk * 8)
              queue
              []
              (handled chunk_size readings generator).generator)
  unfolding worker_loop
  loop_serves chunk_size readings queue generator done empty = rw (done, empty, worker_loop) refl

  -- The IDs of a request, and then those of the others.
  answered-Served :
      (machine start count chunk_size mid : ℕ) (stop : Stop) (first ids : List ℕ)
      (reply : List (List ℕ)) (run : WorkerRun)
      → length first ≡ chunk_size
      → flat reply ≡ bytes_of first
      → IsAscending first
      → All (λ id. start < id) first
      → All (FromMachine o machine) first
      → Keeps o machine start first mid
      → Served o ids_per_chunk machine mid count stop ids run
      → Served o ids_per_chunk machine start
          (chunk_size + count)
          stop
          (first ++ ids)
          (answered reply run)
  unfolding answered
  answered-Served machine start count chunk_size mid stop first ids reply run len bytes asc after
        from keeps s =
      record {
        drained = s.drained;
        stopped = s.stopped;
        counted = length-append first ids ∙ omega (arith, len, s.counted);
        sent = rw (bytes, s.sent) (sym (bytes_of-append first ids));
        ascending = IsAscending-append mid first ids asc s.ascending keeps.covers s.after;
        after =
            All-append _ first ids after
              (All-mono _ _ ids (λ id lt. omega (arith, keeps.not_before, lt)) s.after);
        from_machine = All-append _ first ids from s.from_machine;
        state = record {
          from_machine = s.state.from_machine;
          not_before = omega (arith, keeps.not_before, s.state.not_before);
          covers =
              All-append _ first ids
                (All-mono _ _ first (λ id le. omega (arith, s.state.not_before, le)) keeps.covers)
                s.state.covers;
        };
      }

  loop-Served :
      (queue : List WorkRequest) (generator machine : ℕ)
      → 0 < ids_per_chunk
      → FromMachine o machine generator
      → IsServable o ids_per_chunk queue generator
      → (ids : List ℕ) × Served o ids_per_chunk machine generator
          (requested queue)
          (last_stop queue)
          ids
          (worker_loop o (ids_per_chunk * 8) queue [] generator)
  unfolding worker_loop
  loop-Served [] generator machine room f s = (
    [],
    record {
      drained = refl;
      stopped = refl;
      counted = refl;
      sent = refl;
      ascending = tt;
      after = tt;
      from_machine = tt;
      state = record { from_machine = f; not_before = le_refl generator; covers = tt };
    },
  )
  loop-Served (shutdown heard ∷ queue) generator machine room f s = (
    [],
    record {
      drained = refl;
      stopped = refl;
      counted = refl;
      sent = refl;
      ascending = tt;
      after = tt;
      from_machine = tt;
      state = record { from_machine = f; not_before = le_refl generator; covers = tt };
    },
  )
  loop-Served (stream chunk_size chunk_tx readings ∷ queue) generator machine room f
        (e, enough, fits, rest) =
      let (done, empty, bytes) =
        handle_stream_request-Serves o ids_per_chunk chunk_size readings generator room enough in
      let (asc, after, from) = issued-IsAscending o law readings generator machine f fits in
      let keeps =
        handle_stream_request-Keeps o law ids_per_chunk chunk_size machine readings generator room
          enough f fits in
      let (ids, s) =
        loop-Served queue (handled chunk_size readings generator).generator machine room
          keeps.from_machine rest in
      (
        take chunk_size (issued o readings generator) ++ ids,
        rw (e, loop_serves chunk_size readings queue generator done empty)
            (answered-Served machine generator (requested queue) chunk_size _ (last_stop queue) _
              ids _ _ (length-take chunk_size _ enough) (bytes ∙ packed_ids-take chunk_size _)
              (IsAscending-take chunk_size _ asc) (All-take _ chunk_size _ after)
              (All-take _ chunk_size _ from) keeps s),
      )

  -- A worker with room for an ID in its buffer, a valid generator, and a queue of requests whose
  -- channels stay open and whose clock gives enough readings: it serves all of them
  -- until a shutdown or the end of the queue. The bytes sent are those of as many IDs as the requests ask for, which ascend strictly over
  -- all requests, lie above the state of the generator, and carry its machine number.
  pub worker-Served :
      (queue : List WorkRequest) (generator machine : ℕ)
      → 0 < ids_per_chunk
      → FromMachine o machine generator
      → IsServable o ids_per_chunk queue generator
      → (ids : List ℕ) × Served o ids_per_chunk machine generator
          (requested queue)
          (last_stop queue)
          ids
          (worker o (ids_per_chunk * 8) queue generator)
  unfolding worker
  worker-Served queue generator machine room f s = loop-Served queue generator machine room f s
