-- ===== src/Server/Streams/Distinct.antt =====
-- No two clients get the same ID.
use mathlib.Core.Path.{subst}
use ferroid.Common.{
  ℕ, zero, suc, ◌≤◌, ◌<◌, ◌≡◌, refl, sym, ap, ◌∙◌, arith, Bool, true, List, [], ◌∷◌, ◌++◌, map,
  length, All, All-mono, get_or, length-set,
}
use ferroid.Id.Snowflake.{SnowflakeId, IsLawful}
use ferroid.Generator.Snowflake.Basic.Run.{FromMachine}
use ferroid.Server.Config.{ServerConfig}
use ferroid.Server.Processor.{Channel, handle_stream_request}
use ferroid.Server.Processor.Packs.{flat}
use ferroid.Server.Processor.Between.{Sends, Between-none}
use ferroid.Server.Processor.Sends.{handle_stream_request-Sends}
use ferroid.Server.Pool.Worker.Serves.{bytes_of}
use ferroid.Server.Stream.{no_task}
use ferroid.Server.Stream.Unique.{IsDistinct}
use ferroid.Server.Service.{
  StreamIds, streaming, service_shutdown, count_zero, count_too_large, stream_ids,
}
use ferroid.Server.Streams.{
  Job, Queue, no_queue, System, Step, Reach, accept, check, enter, choose, send, serve, discard,
  stop_worker, leave, notify, handled, checks, enters, chooses, sends, serves, discards, stops,
  ends, leaves, shuts_down, cancels, notifies, here, later,
}
use ferroid.Server.Streams.Chunks.{chunks_of}
use ferroid.Server.Streams.Marks.{Sound, served-Sound, Sends-Splits}

pub open_in_range :
    (qs : List Queue) (w : ℕ) → (get_or qs w no_queue).is_open ≡ true → w < length qs
open_in_range [] w e = absurd (cc)
open_in_range (q ∷ qs) zero e = omega arith
open_in_range (q ∷ qs) (suc w) e = omega (arith, open_in_range qs w e)

-- The server at the start: `n` workers with empty buffers, the generator of the worker `i` with the
-- machine number `machine i`; no client has got anything.
pub record IsStart (o : SnowflakeId) (n : ℕ) (machine : ℕ → ℕ) (s : System) : Type 0 where
  pub tasks : length s.tasks ≡ n
  pub queues : length s.queues ≡ n
  pub empty : (i : ℕ) → i < n → (get_or s.tasks i no_task).filled ≡ []
  pub from_machine :
      (i : ℕ) → i < n → FromMachine o (machine i) (get_or s.tasks i no_task).generator
  pub none : s.delivered ≡ []

module _ (o : SnowflakeId) (law : IsLawful o) (config : ServerConfig) (n : ℕ) (machine : ℕ → ℕ)
    (different : (j k : ℕ) → j < n → k < n → machine j ≡ machine k → j ≡ k) where
  record Inv (s : System) : Type 0 where
    sound : Sound o n machine s.tasks s.delivered
    queues : length s.queues ≡ n

  start-Inv : (s : System) → IsStart o n machine s → Inv s
  start-Inv s start = record {
    sound = record {
      number = start.tasks;
      mark = λ i. (get_or s.tasks i no_task).generator;
      kept = λ i h. (
        [],
        start.empty i h,
        Between-none o (machine i) _ _ (omega arith) (start.from_machine i h),
      );
      chunks = [];
      bytes = rw start.none refl;
      distinct = tt;
      old = tt;
    };
    queues = start.queues;
  }

  serve-Inv :
      (s : System) (w i chunk_size : ℕ) (behind : List Job) (channel : Channel) (readings : List ℕ)
      (resp_fails : ℕ → Bool)
      → Inv s
      → w < n
      → All (λ now. now ≤ o.max_timestamp) readings
      → Inv (serve o config.chunk_bytes w i chunk_size behind channel readings resp_fails s)
  unfolding serve
  serve-Inv s w i chunk_size behind channel readings resp_fails inv lt fits =
      let (pend, e, b) = inv.sound.kept w lt in
      let sends : Sends o (machine w) (inv.sound.mark w) []
          (handled o config.chunk_bytes s w chunk_size channel readings) =
        subst
          (λ (t : List ℕ). Sends o (machine w) (inv.sound.mark w) [] (
            handle_stream_request o config.chunk_bytes chunk_size channel readings t
              (get_or s.tasks w no_task).generator))
          (sym e)
          (handle_stream_request-Sends o law (machine w) config.chunk_bytes chunk_size channel
            readings (get_or s.tasks w no_task).generator (inv.sound.mark w) pend b fits) in
      record {
        sound =
            served-Sound o n machine s.tasks s.delivered w i resp_fails
              (handled o config.chunk_bytes s w chunk_size channel readings) different inv.sound lt
              (Sends-Splits o n machine (inv.sound.mark w) w resp_fails
                (handled o config.chunk_bytes s w chunk_size channel readings) sends);
        queues = length-set s.queues w _ ∙ inv.queues;
      }

  -- The other steps touch no buffer, no generator and no client.
  abbrev Touches : System → System → Type 0
  Touches s t =
      (t.tasks ≡ s.tasks) × (t.delivered ≡ s.delivered) × (length t.queues ≡ length s.queues)

  Touches-Inv : (s t : System) → Touches s t → Inv s → Inv t
  Touches-Inv s t (tasks, delivered, queues) inv = record {
    sound = rw (tasks, delivered) inv.sound;
    queues = queues ∙ inv.queues;
  }

  accept-Touches : (r : StreamIds) (s : System) → Touches s (accept r s)
  unfolding accept
  accept-Touches (streaming total) s = (refl, refl, refl)
  accept-Touches service_shutdown s = (refl, refl, refl)
  accept-Touches count_zero s = (refl, refl, refl)
  accept-Touches (count_too_large count max) s = (refl, refl, refl)

  choose-Touches :
      (i remaining : ℕ) (s : System) → Touches s (choose config.ids_per_chunk i remaining s)
  unfolding choose
  choose-Touches i remaining s = ground arith

  send-Touches :
      (i w chunk_size remaining : ℕ) (s : System) → Touches s (send i w chunk_size remaining s)
  unfolding send
  send-Touches i w chunk_size remaining s = ground (
    arith,
    length-set s.queues w (record {
      is_open = true;
      jobs = (get_or s.queues w no_queue).jobs ++ Job.chunk i chunk_size ∷ [];
    }),
  )

  Step-Inv : {s t : System} → Inv s → Step o config s t → Inv t
  unfolding check enter discard stop_worker leave notify
  Step-Inv {s} inv (checks count) =
      Touches-Inv s _ (accept-Touches (stream_ids s.global_shutdown config count) s) inv
  Step-Inv {s} inv (enters i total at) = Touches-Inv s _ (refl, refl, refl) inv
  Step-Inv {s} inv (chooses i remaining at more) =
      Touches-Inv s _ (choose-Touches i remaining s) inv
  Step-Inv {s} inv (sends i w c r at room) = Touches-Inv s _ (send-Touches i w c r s) inv
  Step-Inv {s} inv (serves w i c behind channel readings resp_fails at fits done) =
      serve-Inv s w i c behind channel readings resp_fails inv
        (omega (arith, inv.queues, open_in_range s.queues w (ap (λ (q : Queue). q.is_open) at)))
        fits
  Step-Inv {s} inv (discards w i c behind at) =
      Touches-Inv s _ (refl, refl, length-set s.queues w _) inv
  Step-Inv {s} inv (stops w behind at) = Touches-Inv s _ (refl, refl, length-set s.queues w _) inv
  Step-Inv {s} inv (ends i at) = Touches-Inv s _ (refl, refl, refl) inv
  Step-Inv {s} inv (leaves i ok at) = Touches-Inv s _ (refl, refl, refl) inv
  Step-Inv {s} inv shuts_down = Touches-Inv s _ (refl, refl, refl) inv
  Step-Inv {s} inv (cancels at) = Touches-Inv s _ (refl, refl, refl) inv
  Step-Inv {s} inv (notifies w at lives room) =
      Touches-Inv s _ (refl, refl, length-set s.queues w _) inv

  Reach-Inv : {start s : System} → Inv start → Reach o config start s → Inv s
  Reach-Inv inv here = inv
  Reach-Inv inv (later r st) = Step-Inv (Reach-Inv inv r) st

  -- From the start, whatever the clients ask, wherever they leave, however the tasks interleave, and
  -- whatever the channels and the clock do, with readings that the timestamp field can hold: the chunks
  -- that clients have got are whole IDs with the machine numbers of the workers, of which no two are
  -- the same, neither within a stream nor in two.
  pub delivered-IsDistinct :
      {start s : System}
      → IsStart o n machine start
      → Reach o config start s
      → (chunks : List (List ℕ)) × (chunks_of s.delivered ≡ map bytes_of chunks)
        × IsDistinct (flat chunks)
        × All (λ id. (i : ℕ) × (i < n) × FromMachine o (machine i) id) (flat chunks)
  delivered-IsDistinct {start} begun r =
      let inv = Reach-Inv (start-Inv start begun) r in
      (
        inv.sound.chunks,
        inv.sound.bytes,
        inv.sound.distinct,
        All-mono _ _ (flat inv.sound.chunks) (λ id (i, lt, f, le). (i, lt, f)) inv.sound.old,
      )
