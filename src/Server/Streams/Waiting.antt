-- ===== src/Server/Streams/Waiting.antt =====
-- The chunks in the queues of the workers, and the streams that wait for them.
use ferroid.Common.{ℕ, ◌≡◌, inl, inr, refl, ap, true, false, Bool-cases}
use ferroid.Id.Snowflake.{SnowflakeId}
use ferroid.Server.Config.{ServerConfig}
use ferroid.Server.Service.{stream_ids}
use ferroid.Server.Streams.Distinct.{open_in_range}
use ferroid.Server.Streams.{
  stop, Queue, feeding, sending, System, Step, Reach, check, enter, choose, send, serve, discard,
  stop_worker, leave, notify, phase_of, queue_of, checks, enters, chooses, sends, serves, discards,
  stops, ends, leaves, shuts_down, cancels, notifies, here, later,
}
use ferroid.Server.Streams.Queued.{
  IsMatched, jobs_of-stop, waits, moves, queued, answered, unqueued, accept-IsMatched,
  live_in_range, job_in_range,
}

module _ (o : SnowflakeId) (config : ServerConfig) where
  choose-IsMatched :
      (i remaining : ℕ) (s : System)
      → IsMatched s
      → phase_of s i ≡ feeding remaining
      → IsMatched (choose config.ids_per_chunk i remaining s)
  unfolding choose
  choose-IsMatched i remaining s m at = elim (Bool-cases s.cancelled) [
    | inl gone ↦ rw (gone, choose) (moves s i _ m (rw at refl))
    | inr lives ↦ rw (lives, choose) (moves s i _ m (rw at refl))
  ]

  send-IsMatched :
      (i w chunk_size remaining : ℕ) (s : System)
      → IsMatched s
      → phase_of s i ≡ sending w chunk_size remaining
      → IsMatched (send i w chunk_size remaining s)
  unfolding send
  send-IsMatched i w chunk_size remaining s m at = elim (Bool-cases (queue_of s w).is_open) [
    | inl there ↦
        rw (there, send)
          (queued s i w chunk_size remaining m (ap waits at) (live_in_range s.streams i (λ e. cc))
            (open_in_range s.queues w there))
    | inr gone ↦ rw (gone, send) (moves s i _ m (rw at refl))
  ]

  Step-IsMatched : {s t : System} → IsMatched s → Step o config s t → IsMatched t
  unfolding check enter serve discard stop_worker leave notify
  Step-IsMatched {s} m (checks count) =
      accept-IsMatched (stream_ids s.global_shutdown config count) s m
  Step-IsMatched {s} m (enters i total at) = moves s i _ m (rw at refl)
  Step-IsMatched {s} m (chooses i remaining at more) = choose-IsMatched i remaining s m at
  Step-IsMatched {s} m (sends i w n r at room) = send-IsMatched i w n r s m at
  Step-IsMatched {s} m (serves w i n behind channel readings resp_fails at fits done) =
      answered s i w n behind _ _ m (ap (λ (q : Queue). q.jobs) at)
  Step-IsMatched {s} m (discards w i n behind at) =
      answered s i w n behind false true m (ap (λ (q : Queue). q.jobs) at)
  Step-IsMatched {s} m (stops w behind at) =
      unqueued s w _ m (job_in_range s.queues w stop behind (ap (λ (q : Queue). q.jobs) at))
        (λ j. rw at refl)
  Step-IsMatched {s} m (ends i at) = moves s i _ m (rw at refl)
  Step-IsMatched {s} m (leaves i ok at) = moves s i _ m (rw at refl)
  Step-IsMatched {s} m shuts_down = m
  Step-IsMatched {s} m (cancels at) = m
  Step-IsMatched {s} m (notifies w at lives room) =
      unqueued s w _ m (open_in_range s.queues w lives) (λ j. jobs_of-stop j (queue_of s w).jobs)

  -- However the tasks interleave, from a server where this holds, such as one without streams and with
  -- empty queues: each stream that waits for a worker has exactly one chunk in the queues, and no other
  -- stream has any, so each chunk that is served has a stream that waits for it.
  pub Reach-IsMatched : {start s : System} → IsMatched start → Reach o config start s → IsMatched s
  Reach-IsMatched m here = m
  Reach-IsMatched m (later r st) = Step-IsMatched (Reach-IsMatched m r) st
