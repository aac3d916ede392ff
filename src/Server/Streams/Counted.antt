-- ===== src/Server/Streams/Counted.antt =====
-- The count of the streams in flight.
use ferroid.Common.{
  ℕ, zero, suc, ◌+◌, ◌%◌, ◌^◌, ◌<◌, ◌≡◌, ◌≢◌, ◌↔◌, refl, sym, ap, Bool-cases, inl, inr, ◌∙◌, arith,
  Bool, true, false, List, [], ◌∷◌, ◌++◌, All, get_or, set,
}
use ferroid.Id.Snowflake.{SnowflakeId}
use ferroid.Server.Config.{ServerConfig}
use ferroid.Server.Service.{
  StreamIds, streaming, service_shutdown, count_zero, count_too_large, stream_ids,
}
use ferroid.Server.Streams.{
  Phase, accept, checked, feeding, sending, waiting, returned, finished, System, Step, Reach, check,
  enter, choose, send, serve, discard, stop_worker, leave, notify, after_reply, no_queue, checks,
  enters, chooses, sends, serves, discards, stops, ends, leaves, shuts_down, cancels, notifies,
  here, later,
}

-- 1 for a stream whose task has been counted and has not yet been taken off.
abbrev pub in_flight : Phase → ℕ
in_flight (checked total_ids) = 0
in_flight finished = 0
in_flight phase = 1

abbrev pub running : List Phase → ℕ
running [] = 0
running (p ∷ ps) = in_flight p + running ps

running-append : (ps : List Phase) (total : ℕ) → running (ps ++ checked total ∷ []) ≡ running ps
running-append [] total = refl
running-append (p ∷ ps) total = ap (λ (t : ℕ). in_flight p + t) (running-append ps total)

-- A stream goes from one phase to another.
running-set :
    (ps : List Phase) (i : ℕ) (p : Phase)
    → get_or ps i finished ≢ finished
    → running (set ps i p) + in_flight (get_or ps i finished) ≡ running ps + in_flight p
running-set [] i p h = absurd (h refl)
running-set (q ∷ ps) zero p h = omega arith
running-set (q ∷ ps) (suc i) p h = omega (arith, running-set ps i p h)

running-set_same :
    (ps : List Phase) (i : ℕ) (p : Phase)
    → in_flight p ≡ in_flight (get_or ps i finished)
    → running (set ps i p) ≡ running ps
running-set_same [] i p h = refl
running-set_same (q ∷ ps) zero p h = omega (arith, h)
running-set_same (q ∷ ps) (suc i) p h = omega (arith, running-set_same ps i p h)

in_flight-after_reply :
    (accepted : Bool) (p : Phase) → in_flight (after_reply accepted p) ≡ in_flight p
unfolding after_reply
in_flight-after_reply true (checked t) = refl
in_flight-after_reply true (feeding r) = refl
in_flight-after_reply true (sending w c r) = refl
in_flight-after_reply true (waiting r) = refl
in_flight-after_reply true (returned ok) = refl
in_flight-after_reply true finished = refl
in_flight-after_reply false (checked t) = refl
in_flight-after_reply false (feeding r) = refl
in_flight-after_reply false (sending w c r) = refl
in_flight-after_reply false (waiting r) = refl
in_flight-after_reply false (returned ok) = refl
in_flight-after_reply false finished = refl

-- The counter, which wraps, counts the running streams.
abbrev IsCounted : System → Type 0
IsCounted s = s.streams_inflight ≡ running s.streams % 2 ^ 64

accept-IsCounted : (r : StreamIds) (s : System) → IsCounted s → IsCounted (accept r s)
unfolding accept
accept-IsCounted (streaming total) s c = rw (running-append s.streams total) c
accept-IsCounted service_shutdown s c = c
accept-IsCounted count_zero s c = c
accept-IsCounted (count_too_large count max) s c = c

-- A stream goes on, or waits.
goes_on :
    (s : System) (i : ℕ) (p : Phase)
    → IsCounted s
    → in_flight p ≡ in_flight (get_or s.streams i finished)
    → s.streams_inflight ≡ running (set s.streams i p) % 2 ^ 64
goes_on s i p c same = c ∙ ap (λ (t : ℕ). t % 2 ^ 64) (sym (running-set_same s.streams i p same))

module _ (o : SnowflakeId) (config : ServerConfig) where
  choose-IsCounted :
      (i remaining : ℕ) (s : System)
      → IsCounted s
      → get_or s.streams i finished ≡ feeding remaining
      → IsCounted (choose config.ids_per_chunk i remaining s)
  unfolding choose
  choose-IsCounted i remaining s c at = elim (Bool-cases s.cancelled) [
    | inl gone ↦ rw (gone, choose) (goes_on s i _ c (rw at refl))
    | inr open_ ↦ rw (open_, choose) (goes_on s i _ c (rw at refl))
  ]

  send-IsCounted :
      (i w chunk_size remaining : ℕ) (s : System)
      → IsCounted s
      → get_or s.streams i finished ≡ sending w chunk_size remaining
      → IsCounted (send i w chunk_size remaining s)
  unfolding send
  send-IsCounted i w chunk_size remaining s c at =
      elim (Bool-cases (get_or s.queues w no_queue).is_open) [
        | inl there ↦ rw (there, send) (goes_on s i _ c (rw at refl))
        | inr gone ↦ rw (gone, send) (goes_on s i _ c (rw at refl))
      ]

  Step-IsCounted : {s t : System} → IsCounted s → Step o config s t → IsCounted t
  unfolding check enter serve discard stop_worker leave notify
  Step-IsCounted {s} c (checks count) =
      accept-IsCounted (stream_ids s.global_shutdown config count) s c
  Step-IsCounted {s} c (enters i total at) = omega (arith, c, changed, ap in_flight at)
    where
      changed :
          running (set s.streams i (feeding total)) + in_flight (get_or s.streams i finished)
          ≡ running s.streams + 1
      changed = running-set s.streams i (feeding total) (λ e. cc)
  Step-IsCounted {s} c (chooses i remaining at more) = choose-IsCounted i remaining s c at
  Step-IsCounted {s} c (sends i w n r at room) = send-IsCounted i w n r s c at
  Step-IsCounted {s} c (serves w i n behind channel readings resp_fails at fits done) =
      goes_on s i _ c (in_flight-after_reply _ (get_or s.streams i finished))
  Step-IsCounted {s} c (discards w i n behind at) =
      goes_on s i _ c (in_flight-after_reply true (get_or s.streams i finished))
  Step-IsCounted {s} c (stops w behind at) = c
  Step-IsCounted {s} c (ends i at) = goes_on s i _ c (rw at refl)
  Step-IsCounted {s} c (leaves i ok at) = omega (arith, c, changed, ap in_flight at)
    where
      changed :
          running (set s.streams i finished) + in_flight (get_or s.streams i finished)
          ≡ running s.streams + 0
      changed = running-set s.streams i finished (λ e. cc)
  Step-IsCounted {s} c shuts_down = c
  Step-IsCounted {s} c (cancels at) = c
  Step-IsCounted {s} c (notifies w at lives room) = c

  Reach-IsCounted : {start s : System} → IsCounted start → Reach o config start s → IsCounted s
  Reach-IsCounted c here = c
  Reach-IsCounted c (later r st) = Step-IsCounted (Reach-IsCounted c r) st

none_running : (ps : List Phase) → running ps ≡ 0 → All (λ p. in_flight p ≡ 0) ps
none_running [] e = tt
none_running (p ∷ ps) e = (omega (arith, e), none_running ps (omega (arith, e)))

all_idle : (ps : List Phase) → All (λ p. in_flight p ≡ 0) ps → running ps ≡ 0
all_idle [] h = refl
all_idle (p ∷ ps) (e, h) = omega (arith, e, all_idle ps h)

-- However the tasks interleave from a server without streams, and while fewer than 2 ^ 64 streams run:
-- the counter for which the shutdown waits is the number of streams that have been counted and have not
-- finished, so it is 0 exactly when there is none.
pub streams_inflight-running :
    (o : SnowflakeId) (config : ServerConfig) {start s : System}
    → start.streams ≡ []
    → start.streams_inflight ≡ 0
    → Reach o config start s
    → running s.streams < 2 ^ 64
    → (s.streams_inflight ≡ running s.streams)
      × ((s.streams_inflight ≡ 0) ↔ All (λ p. in_flight p ≡ 0) s.streams)
streams_inflight-running o config {start} {s} none zero_ r few =
    let counted : s.streams_inflight ≡ running s.streams % 2 ^ 64 =
      Reach-IsCounted o config (rw (zero_, none) refl) r in
    let same : s.streams_inflight ≡ running s.streams = omega (arith, counted) in
    (same, (λ e. none_running s.streams (sym same ∙ e), λ h. same ∙ all_idle s.streams h))
