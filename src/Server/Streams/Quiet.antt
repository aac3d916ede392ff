-- ===== src/Server/Streams/Quiet.antt =====
-- The shutdown after the streams have drained.
use ferroid.Common.{
  ℕ, zero, suc, ◌+◌, ◌<◌, ◌≡◌, ◌≢◌, refl, sym, ap, ◌∙◌, arith, true, List, [], ◌∷◌, All, get_or,
  ◌^◌,
}
use ferroid.Id.Snowflake.{SnowflakeId}
use ferroid.Server.Config.{ServerConfig}
use ferroid.Server.Service.{stream_ids}
use ferroid.Server.Streams.{
  Job, chunk, Queue, no_queue, Phase, finished, checked, feeding, sending, waiting, returned,
  System, Step, Reach, accept, check, stop_worker, notify, phase_of, queue_of, checks, enters,
  chooses, sends, serves, discards, stops, ends, leaves, shuts_down, cancels, notifies, here, later,
}
use ferroid.Server.Streams.Queued.{IsMatched, jobs_of, pending, waits}
use ferroid.Server.Streams.Counted.{running, in_flight, streams_inflight-running}
use ferroid.Server.Streams.Waiting.{Reach-IsMatched}

all_finished :
    (ps : List Phase) (i : ℕ) → All (λ p. p ≡ finished) ps → get_or ps i finished ≡ finished
all_finished [] i h = refl
all_finished (p ∷ ps) zero (e, h) = e
all_finished (p ∷ ps) (suc i) (e, h) = all_finished ps i h

queued-pending :
    (qs : List Queue) (w i chunk_size : ℕ) (behind : List Job)
    → (get_or qs w no_queue).jobs ≡ chunk i chunk_size ∷ behind
    → 0 < pending i qs
queued-pending [] w i chunk_size behind e = absurd (cc)
queued-pending (q ∷ qs) zero i chunk_size behind e = omega (arith, ap (jobs_of i) e, one)
  where
    one : jobs_of i (chunk i chunk_size ∷ behind) ≡ 1 + jobs_of i behind
    one = ground arith
queued-pending (q ∷ qs) (suc w) i chunk_size behind e =
    omega (arith, queued-pending qs w i chunk_size behind e)

-- No stream is there that waits, so no chunk is queued.
none_queued :
    (s : System) (w i chunk_size : ℕ) (behind : List Job)
    → IsMatched s
    → All (λ p. p ≡ finished) s.streams
    → (queue_of s w).jobs ≡ chunk i chunk_size ∷ behind
    → ⊥
none_queued s w i chunk_size behind m all at = omega (
  arith,
  queued-pending s.queues w i chunk_size behind at,
  m i,
  ap waits (all_finished s.streams i all),
)

-- A stream that has finished stands in no other phase.
live :
    (s : System) (i : ℕ) {p : Phase}
    → All (λ p. p ≡ finished) s.streams
    → phase_of s i ≡ p
    → p ≢ finished
    → ⊥
live s i all at other = other (sym at ∙ all_finished s.streams i all)

module _ (o : SnowflakeId) (config : ServerConfig) where
  -- The streams, the workers' tasks and the clients are as they were.
  abbrev IsSame : System → System → Type 0
  IsSame s t = (t.streams ≡ s.streams) × (t.tasks ≡ s.tasks) × (t.delivered ≡ s.delivered)

  abbrev IsDown : System → Type 0
  IsDown s = (s.global_shutdown ≡ true) × All (λ p. p ≡ finished) s.streams

  Step-IsSame :
      {s t : System}
      → IsMatched s
      → IsDown s
      → Step o config s t
      → IsSame s t × (t.global_shutdown ≡ true)
  unfolding check accept stream_ids stop_worker notify
  Step-IsSame {s} m (down, all) (checks count) =
      rw (down, check, stream_ids) ((refl, refl, refl), refl)
  Step-IsSame {s} m (down, all) (enters i total at) = absurd (live s i all at (λ e. cc))
  Step-IsSame {s} m (down, all) (chooses i remaining at more) = absurd (live s i all at (λ e. cc))
  Step-IsSame {s} m (down, all) (sends i w n r at room) = absurd (live s i all at (λ e. cc))
  Step-IsSame {s} m (down, all) (serves w i n behind channel readings resp_fails at fits done) =
      absurd (none_queued s w i n behind m all (ap (λ (q : Queue). q.jobs) at))
  Step-IsSame {s} m (down, all) (discards w i n behind at) =
      absurd (none_queued s w i n behind m all (ap (λ (q : Queue). q.jobs) at))
  Step-IsSame {s} m (down, all) (stops w behind at) = ((refl, refl, refl), down)
  Step-IsSame {s} m (down, all) (ends i at) = absurd (live s i all at (λ e. cc))
  Step-IsSame {s} m (down, all) (leaves i ok at) = absurd (live s i all at (λ e. cc))
  Step-IsSame {s} m (down, all) shuts_down = ((refl, refl, refl), refl)
  Step-IsSame {s} m (down, all) (cancels at) = ((refl, refl, refl), down)
  Step-IsSame {s} m (down, all) (notifies w at lives room) = ((refl, refl, refl), down)

  Reach-IsSame :
      {s t : System}
      → IsMatched s
      → IsDown s
      → Reach o config s t
      → IsSame s t × (t.global_shutdown ≡ true)
  Reach-IsSame m (down, all) here = ((refl, refl, refl), down)
  Reach-IsSame {s} m (down, all) (later {t} r st) =
      let ((streams, tasks, delivered), down') = Reach-IsSame m (down, all) r in
      let ((streams', tasks', delivered'), down'') =
        Step-IsSame (Reach-IsMatched o config m r) (down', rw streams all) st in
      ((streams' ∙ streams, tasks' ∙ tasks, delivered' ∙ delivered), down'')

-- A stream that is not in the counter has been checked only, or has finished.
uncounted-finished :
    (ps : List Phase)
    → All (λ p. in_flight p ≡ 0) ps
    → ((i total : ℕ) → get_or ps i finished ≢ checked total)
    → All (λ p. p ≡ finished) ps
uncounted-finished [] idle none = tt
uncounted-finished (checked total ∷ ps) (e, idle) none = absurd (none 0 total refl)
uncounted-finished (feeding total ∷ ps) (e, idle) none = absurd (omega (arith, e))
uncounted-finished (sending w n remaining ∷ ps) (e, idle) none = absurd (omega (arith, e))
uncounted-finished (waiting remaining ∷ ps) (e, idle) none = absurd (omega (arith, e))
uncounted-finished (returned ok ∷ ps) (e, idle) none = absurd (omega (arith, e))
uncounted-finished (finished ∷ ps) (e, idle) none =
    (refl, uncounted-finished ps idle (λ i. none (suc i)))

-- Once the shutdown has begun and its counter of streams is 0, which is what it waits for until its
-- timeout: if no request stands between its checks and its count at that moment, then however the tasks
-- go on, no stream starts, no worker serves a chunk, and no client gets another. The server began without
-- streams and queued chunks, and fewer than 2 ^ 64 run.
pub drained-IsQuiet :
    (o : SnowflakeId) (config : ServerConfig) {start s t : System}
    → start.streams ≡ []
    → start.streams_inflight ≡ 0
    → IsMatched start
    → Reach o config start s
    → running s.streams < 2 ^ 64
    → s.global_shutdown ≡ true
    → s.streams_inflight ≡ 0
    → ((i total_ids : ℕ) → phase_of s i ≢ checked total_ids)
    → Reach o config s t
    → (t.streams ≡ s.streams) × (t.tasks ≡ s.tasks) × (t.delivered ≡ s.delivered)
drained-IsQuiet o config {start} {s} begun begun_count m r few down drained none after =
    let idle : All (λ p. in_flight p ≡ 0) s.streams =
      (streams_inflight-running o config begun begun_count r few).1.0 drained in
    (Reach-IsSame o config (Reach-IsMatched o config m r)
      (down, uncounted-finished s.streams idle none) after).0
