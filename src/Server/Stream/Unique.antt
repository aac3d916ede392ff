-- ===== src/Server/Stream/Unique.antt =====
-- What the client of a whole request gets while no channel fails.
use mathlib.Core.List.{append_assoc}
use mathlib.Core.Path.{subst}
use ferroid.Common.{
  ℕ, zero, suc, ◌+◌, ◌-◌, ◌^◌, ◌≤◌, ◌<◌, ◌≡◌, ◌≢◌, refl, sym, ap, ◌∙◌, arith, Bool, false, min,
  List, [], ◌∷◌, ◌++◌, length, length-append, All, All-append, All-mono, All-take, take,
  length-take, get_or-set_same, IsAscending, IsAscending-take,
}
use ferroid.Id.Snowflake.{SnowflakeId, IsLawful}
use ferroid.Generator.Snowflake.Basic.{issued}
use ferroid.Generator.Snowflake.Basic.Run.{FromMachine, issued-IsAscending}
use ferroid.Server.Processor.{Handled}
use ferroid.Server.Processor.Packs.{flat}
use ferroid.Server.Processor.Keeps.{Keeps}
use ferroid.Server.Pool.Worker.{stream}
use ferroid.Server.Pool.Worker.Serves.{bytes_of, bytes_of-append}
use ferroid.Server.Pool.Manager.{WorkerPool, next_worker_index}
use ferroid.Server.Pool.Manager.Rounds.{after_send, after_send-IsReady}
use ferroid.Server.Stream.{no_task, Server, Round, Fed, finished, handled, served, feed_stream}
use ferroid.Server.Stream.Serving.{task_of, IsServing, IsNew, served-IsServing, served-IsNew}
use ferroid.Server.Stream.Rounds.{
  after_round, IsServable, handled-Serves, next_worker_index-lt, after_round_lem, feed_round,
}

-- No number stands twice.
abbrev pub IsDistinct : List ℕ → Type 0
IsDistinct [] = Unit
IsDistinct (x ∷ xs) = All (λ y. x ≢ y) xs × IsDistinct xs

pub IsDistinct-append :
    (xs ys : List ℕ)
    → IsAscending xs
    → IsDistinct ys
    → All (λ x. All (λ y. x ≢ y) ys) xs
    → IsDistinct (xs ++ ys)
IsDistinct-append [] ys asc d apart = d
IsDistinct-append (x ∷ xs) ys (above, asc) d (first, apart) = (
  All-append _ xs ys (All-mono _ _ xs (λ y lt e. omega arith) above) first,
  IsDistinct-append xs ys asc d apart,
)

pub flat-append : (xs ys : List (List ℕ)) → flat (xs ++ ys) ≡ flat xs ++ flat ys
flat-append [] ys = refl
flat-append (x ∷ xs) ys =
    ap (λ (t : List ℕ). x ++ t) (flat-append xs ys) ∙ sym (append_assoc x (flat xs) (flat ys))

pub All-both {ℓ κ μ} :
    {A : Type ℓ} (P : A → Type κ) (Q : A → Type μ) (xs : List A)
    → All P xs
    → All Q xs
    → All (λ a. P a × Q a) xs
All-both P Q [] p q = tt
All-both P Q (x ∷ xs) (px, p) (qx, q) = ((px, qx), All-both P Q xs p q)

-- The chunk of a round, and what the rounds behind it give.
abbrev joined : Handled → Fed → Fed
joined h rest = record {
  delivered = h.sent ++ rest.delivered;
  outcome = rest.outcome;
  server = rest.server;
}

-- A request that has ended with these IDs delivered: as many as asked for, none twice, all new to the
-- workers at the start, which wait for requests again.
pub record Whole (o : SnowflakeId) (n : ℕ) (machine : ℕ → ℕ) (start : Server) (count : ℕ)
    (ids : List ℕ) (f : Fed) : Type 0 where
  pub ended : f.outcome ≡ finished
  pub counted : length ids ≡ count
  pub bytes : flat f.delivered ≡ bytes_of ids
  pub distinct : IsDistinct ids
  pub from_workers : All (IsNew o n machine start) ids
  pub serving : IsServing o n machine f.server

module _ (o : SnowflakeId) (law : IsLawful o) (ids_per_chunk : ℕ) (resp_fails : ℕ → Bool) (n : ℕ)
    (machine : ℕ → ℕ) where
  -- An ID of the chunk of the worker `i`, and one that is new after that chunk.
  apart :
      (server : Server) (pool : WorkerPool) (i : ℕ) (h : Handled) (x y : ℕ)
      → ((j k : ℕ) → j < n → k < n → machine j ≡ machine k → j ≡ k)
      → length server.tasks ≡ n
      → i < n
      → FromMachine o (machine i) x
      → x ≤ h.generator
      → IsNew o n machine (served (record { pool = pool; tasks = server.tasks }) i h) y
      → x ≢ y
  unfolding served
  apart server pool i h x y different number lt from le (j, hj, from', above) e =
      absurd (omega (arith, e, le, at_i))
    where
      same : i ≡ j
      same = different i j lt hj (sym from.0 ∙ ap o.machine_id e ∙ from'.0)

      at_i : h.generator < y
      at_i =
          rw (sym same, get_or-set_same server.tasks i _ no_task (omega (arith, number))) at above

  -- A chunk of the worker `i`, and then the others.
  round-Whole :
      (server : Server) (pool : WorkerPool) (i chunk_size count : ℕ) (h : Handled)
      (first ids : List ℕ) (rest : Fed)
      → ((j k : ℕ) → j < n → k < n → machine j ≡ machine k → j ≡ k)
      → IsServing o n machine server
      → i < n
      → length first ≡ chunk_size
      → flat h.sent ≡ bytes_of first
      → IsAscending first
      → All (λ id. (task_of server i).generator < id) first
      → All (FromMachine o (machine i)) first
      → Keeps o (machine i) (task_of server i).generator first h.generator
      → Whole o n machine (served (record { pool = pool; tasks = server.tasks }) i h) count ids rest
      → Whole o n machine server (chunk_size + count) (first ++ ids) (record {
        delivered = h.sent ++ rest.delivered;
        outcome = rest.outcome;
        server = rest.server;
      })
  round-Whole server pool i chunk_size count h first ids rest different s lt len bytes asc after
        from keeps w =
      record {
        ended = w.ended;
        counted = length-append first ids ∙ omega (arith, len, w.counted);
        bytes =
            flat-append h.sent rest.delivered
            ∙ rw (bytes, w.bytes) (sym (bytes_of-append first ids));
        distinct = IsDistinct-append first ids asc w.distinct (
            All-mono _ _ first
              (λ x (f, le).
                All-mono _ _ ids (λ y new. apart server pool i h x y different s.tasks lt f le new)
                  w.from_workers)
              (All-both _ _ first from keeps.covers));
        from_workers =
            All-append _ first ids
              (All-mono _ _ first (λ x (f, above). (i, lt, f, above))
                (All-both _ _ first from after))
              (All-mono _ _ ids
                (λ y new.
                  served-IsNew o n machine server pool i h y s.tasks lt keeps.not_before new)
                w.from_workers);
        serving = w.serving;
      }

  -- A server whose workers wait with empty buffers and with generators of pairwise different machine
  -- numbers, on channels that do not fail, with enough rounds and readings, and a counter of the pool
  -- that does not wrap in them: a request for any number of IDs ends without an error. The bytes
  -- delivered are those of as many IDs, none of which stands twice, and each of which is above the
  -- state that one of the workers had before and carries its machine number; and the workers wait as
  -- before.
  pub feed_stream-Whole :
      (rounds : List Round) (forwarded remaining : ℕ) (server : Server)
      → ((j k : ℕ) → j < n → k < n → machine j ≡ machine k → j ≡ k)
      → ((k : ℕ) → resp_fails k ≡ false)
      → 0 < ids_per_chunk
      → IsServing o n machine server
      → server.pool.next_worker + length rounds < 2 ^ 64
      → IsServable o ids_per_chunk rounds remaining server
      → (ids : List ℕ) × Whole o n machine server remaining ids
          (feed_stream o ids_per_chunk resp_fails rounds forwarded remaining server)
  unfolding feed_stream
  feed_stream-Whole rounds forwarded zero server different works room s fits servable = (
    [],
    record {
      ended = refl;
      counted = refl;
      bytes = refl;
      distinct = tt;
      from_workers = tt;
      serving = s;
    },
  )
  feed_stream-Whole [] forwarded (suc remaining) server different works room s fits servable =
      absurd servable
  feed_stream-Whole (round ∷ rounds) forwarded (suc remaining) server different works room s fits
        (opened, enough, within, servable) =
      let i = (next_worker_index server.pool).0 in
      let c = min (suc remaining) ids_per_chunk in
      let lt = next_worker_index-lt o law ids_per_chunk n machine server.pool s.ready in
      let handed = issued o round.readings (task_of server i).generator in
      let h = handled o ids_per_chunk server i c round in
      let ((done, empty, bytes), keeps) =
        handled-Serves o law ids_per_chunk n machine server i c round room s lt opened enough
          within in
      let (asc, after, from) =
        issued-IsAscending o law round.readings (task_of server i).generator (machine i)
          (s.from_machine i lt) within in
      let step =
        after_round_lem o law ids_per_chunk n machine server i c round s.ready (omega arith) in
      let pool' = after_send n server.pool (stream c round.chunk_tx round.readings) in
      let server' : Server = served (record { pool = pool'; tasks = server.tasks }) i h in
      let s' : IsServing o n machine server' =
        served-IsServing o n machine server pool' i h s (after_send-IsReady n server.pool _ s.ready)
          lt done empty keeps.from_machine in
      let (ids, w) =
        feed_stream-Whole rounds (forwarded + length h.sent) (suc remaining - c) server' different
          works room s' (omega arith)
          (subst (λ t. IsServable o ids_per_chunk rounds (suc remaining - c) t) step servable) in
      (
        take c handed ++ ids,
        rw
            (feed_round o law ids_per_chunk n machine resp_fails round rounds forwarded remaining
              server works s.ready (omega arith) done)
            (subst
              (λ t. Whole o n machine server t (take c handed ++ ids) (
                joined h (
                  feed_stream o ids_per_chunk resp_fails rounds (forwarded + length h.sent)
                    (suc remaining - c) (after_round o ids_per_chunk server i c round))))
              whole
              (subst
                (λ t. Whole o n machine server (c + (suc remaining - c)) (take c handed ++ ids) (
                  joined h (
                    feed_stream o ids_per_chunk resp_fails rounds (forwarded + length h.sent)
                      (suc remaining - c) t)))
                (sym step)
                (round-Whole server pool' i c (suc remaining - c) h (take c handed) ids _ different
                  s lt (length-take c handed enough) bytes (IsAscending-take c handed asc)
                  (All-take _ c handed after) (All-take _ c handed from) keeps w))),
      )
    where
      whole :
          min (suc remaining) ids_per_chunk + (suc remaining - min (suc remaining) ids_per_chunk)
          ≡ suc remaining
      whole = omega arith
