-- ===== src/Server/Streams/Queued.antt =====
-- Chunks that enter and leave the queues of the workers.
use mathlib.Core.Path.{subst}
use ferroid.Common.{
  ℕ, zero, suc, ◌+◌, ◌<◌, ◌≡◌, ◌≢◌, inl, inr, refl, sym, ap, ◌∙◌, arith, Bool, true, false,
  Bool-cases, List, [], ◌∷◌, ◌++◌, length, get_or, set, ◌==◌, ==_iff, if◌then◌else◌,
}
use ferroid.Server.Service.{StreamIds, streaming, service_shutdown, count_zero, count_too_large}
use ferroid.Server.Streams.{
  Job, chunk, stop, Queue, no_queue, Phase, checked, feeding, sending, waiting, returned, finished,
  System, accept, after_reply, phase_of, queue_of,
}

-- How many chunks of the stream `i` are queued.
abbrev pub jobs_of : ℕ → List Job → ℕ
jobs_of i [] = 0
jobs_of i (chunk j chunk_size ∷ jobs) = (if i == j then 1 else 0) + jobs_of i jobs
jobs_of i (stop ∷ jobs) = jobs_of i jobs

jobs_of-chunk :
    (j i chunk_size : ℕ) (jobs : List Job)
    → jobs_of j (jobs ++ chunk i chunk_size ∷ []) ≡ jobs_of j jobs + (if j == i then 1 else 0)
jobs_of-chunk j i c [] = omega arith
jobs_of-chunk j i c (chunk k d ∷ jobs) = omega (arith, jobs_of-chunk j i c jobs)
jobs_of-chunk j i c (stop ∷ jobs) = jobs_of-chunk j i c jobs

pub jobs_of-stop : (j : ℕ) (jobs : List Job) → jobs_of j (jobs ++ stop ∷ []) ≡ jobs_of j jobs
jobs_of-stop j [] = refl
jobs_of-stop j (chunk k d ∷ jobs) = omega (arith, jobs_of-stop j jobs)
jobs_of-stop j (stop ∷ jobs) = jobs_of-stop j jobs

abbrev pub pending : ℕ → List Queue → ℕ
pending i [] = 0
pending i (q ∷ qs) = jobs_of i q.jobs + pending i qs

abbrev pub waits : Phase → ℕ
waits (waiting remaining) = 1
waits phase = 0

-- Each waiting stream has one chunk in the queues, and no other stream has any.
abbrev pub IsMatched : System → Type 0
IsMatched s = (i : ℕ) → pending i s.queues ≡ waits (phase_of s i)

pending-set :
    (qs : List Queue) (w i : ℕ) (q : Queue)
    → w < length qs
    → pending i (set qs w q) + jobs_of i (get_or qs w no_queue).jobs
      ≡ pending i qs + jobs_of i q.jobs
pending-set [] w i q h = absurd (omega arith)
pending-set (p ∷ qs) zero i q h = omega arith
pending-set (p ∷ qs) (suc w) i q h = omega (arith, pending-set qs w i q (omega arith))

waits-set :
    (ps : List Phase) (i j : ℕ) (p : Phase)
    → i < length ps
    → waits (get_or (set ps i p) j finished)
      ≡ (if j == i then waits p else waits (get_or ps j finished))
waits-set [] i j p h = absurd (omega arith)
waits-set (q ∷ ps) zero zero p h = refl
waits-set (q ∷ ps) zero (suc j) p h = ground arith
waits-set (q ∷ ps) (suc i) zero p h = ground arith
waits-set (q ∷ ps) (suc i) (suc j) p h = waits-set ps i j p (omega arith) ∙ ground arith

waits-set_same :
    (ps : List Phase) (i j : ℕ) (p : Phase)
    → waits p ≡ waits (get_or ps i finished)
    → waits (get_or (set ps i p) j finished) ≡ waits (get_or ps j finished)
waits-set_same [] i j p h = refl
waits-set_same (q ∷ ps) zero zero p h = h
waits-set_same (q ∷ ps) zero (suc j) p h = refl
waits-set_same (q ∷ ps) (suc i) zero p h = refl
waits-set_same (q ∷ ps) (suc i) (suc j) p h = waits-set_same ps i j p h

waits-append :
    (ps : List Phase) (j total : ℕ)
    → waits (get_or (ps ++ checked total ∷ []) j finished) ≡ waits (get_or ps j finished)
waits-append [] zero total = refl
waits-append [] (suc j) total = refl
waits-append (p ∷ ps) zero total = refl
waits-append (p ∷ ps) (suc j) total = waits-append ps j total

pub live_in_range : (ps : List Phase) (i : ℕ) → get_or ps i finished ≢ finished → i < length ps
live_in_range [] i h = absurd (h refl)
live_in_range (p ∷ ps) zero h = omega arith
live_in_range (p ∷ ps) (suc i) h = omega (arith, live_in_range ps i h)

waiting_in_range : (ps : List Phase) (i : ℕ) → waits (get_or ps i finished) ≡ 1 → i < length ps
waiting_in_range [] i e = absurd (omega (arith, e))
waiting_in_range (p ∷ ps) zero e = omega arith
waiting_in_range (p ∷ ps) (suc i) e = omega (arith, waiting_in_range ps i e)

pub job_in_range :
    (qs : List Queue) (w : ℕ) (job : Job) (behind : List Job)
    → (get_or qs w no_queue).jobs ≡ job ∷ behind
    → w < length qs
job_in_range [] w job behind e = absurd (cc)
job_in_range (q ∷ qs) zero job behind e = omega arith
job_in_range (q ∷ qs) (suc w) job behind e = omega (arith, job_in_range qs w job behind e)

waits-after_reply : (accepted : Bool) (p : Phase) → waits p ≡ 1 → waits (after_reply accepted p) ≡ 0
unfolding after_reply
waits-after_reply true (waiting r) e = refl
waits-after_reply false (waiting r) e = refl
waits-after_reply accepted (checked t) e = absurd (omega (arith, e))
waits-after_reply accepted (feeding r) e = absurd (omega (arith, e))
waits-after_reply accepted (sending w c r) e = absurd (omega (arith, e))
waits-after_reply accepted (returned ok) e = absurd (omega (arith, e))
waits-after_reply accepted finished e = absurd (omega (arith, e))

-- A stream goes on that does not wait, before or after.
pub moves :
    (s : System) (i : ℕ) (p : Phase)
    → IsMatched s
    → waits p ≡ waits (phase_of s i)
    → (j : ℕ) → pending j s.queues ≡ waits (get_or (set s.streams i p) j finished)
moves s i p m same j = m j ∙ sym (waits-set_same s.streams i j p same)

-- A worker gets a chunk of a stream that has not waited.
pub queued :
    (s : System) (i w chunk_size remaining : ℕ)
    → IsMatched s
    → waits (phase_of s i) ≡ 0
    → i < length s.streams
    → w < length s.queues
    → (j : ℕ)
    → pending j (
        set s.queues w
          (record { is_open = true; jobs = (queue_of s w).jobs ++ chunk i chunk_size ∷ [] }))
      ≡ waits (get_or (set s.streams i (waiting remaining)) j finished)
queued s i w chunk_size remaining m idle inside room j =
    let moved =
      pending-set s.queues w j
        (record { is_open = true; jobs = (queue_of s w).jobs ++ chunk i chunk_size ∷ [] }) room in
    let jobs = jobs_of-chunk j i chunk_size (queue_of s w).jobs in
    elim (Bool-cases (j == i)) [
      | inl e ↦
          let same : j ≡ i = (==_iff j i).0 e in
          let idle' : waits (phase_of s j) ≡ 0 =
            subst (λ (k : ℕ). waits (phase_of s k) ≡ 0) (sym same) idle in
          rw (waits-set s.streams i j (waiting remaining) inside, e)
            (omega (arith, moved, rw e at jobs, m j, idle'))
      | inr e ↦
          rw (waits-set s.streams i j (waiting remaining) inside, e)
            (omega (arith, moved, rw e at jobs, m j))
    ]

-- A chunk leaves a queue, and its stream stops waiting.
pub answered :
    (s : System) (i w chunk_size : ℕ) (behind : List Job) (is_open accepted : Bool)
    → IsMatched s
    → (queue_of s w).jobs ≡ chunk i chunk_size ∷ behind
    → (j : ℕ)
    → pending j (set s.queues w (record { is_open = is_open; jobs = behind }))
      ≡ waits (get_or (set s.streams i (after_reply accepted (phase_of s i))) j finished)
answered s i w chunk_size behind is_open accepted m at j =
    let room = job_in_range s.queues w (chunk i chunk_size) behind at in
    let moved = pending-set s.queues w j (record { is_open = is_open; jobs = behind }) room in
    let moved_i = pending-set s.queues w i (record { is_open = is_open; jobs = behind }) room in
    let before_i : jobs_of i (queue_of s w).jobs ≡ 1 + jobs_of i behind =
      ap (jobs_of i) at ∙ one i in
    let waited : waits (phase_of s i) ≡ 1 =
      at_most_one (phase_of s i) (omega (arith, moved_i, before_i, m i)) in
    let stopped : waits (after_reply accepted (phase_of s i)) ≡ 0 =
      waits-after_reply accepted (phase_of s i) waited in
    elim (Bool-cases (j == i)) [
      | inl e ↦
          let same : j ≡ i = (==_iff j i).0 e in
          let before : jobs_of j (queue_of s w).jobs ≡ 1 + jobs_of j behind =
            subst (λ (k : ℕ). jobs_of k (queue_of s w).jobs ≡ 1 + jobs_of k behind) (sym same)
              before_i in
          let waited' : waits (phase_of s j) ≡ 1 =
            subst (λ (k : ℕ). waits (phase_of s k) ≡ 1) (sym same) waited in
          rw (waits-set s.streams i j _ (waiting_in_range s.streams i waited), e)
            (omega (arith, moved, before, m j, waited', stopped))
      | inr e ↦
          let before : jobs_of j (queue_of s w).jobs ≡ jobs_of j behind =
            ap (jobs_of j) at ∙ rw e (omega arith) in
          rw (waits-set s.streams i j _ (waiting_in_range s.streams i waited), e)
            (omega (arith, moved, before, m j))
    ]
  where
    one : (k : ℕ) → jobs_of k (chunk k chunk_size ∷ behind) ≡ 1 + jobs_of k behind
    one k = ground arith

    at_most_one : (p : Phase) → 0 < waits p → waits p ≡ 1
    at_most_one (waiting r) h = refl
    at_most_one (checked t) h = absurd (omega arith)
    at_most_one (feeding r) h = absurd (omega arith)
    at_most_one (sending v c r) h = absurd (omega arith)
    at_most_one (returned ok) h = absurd (omega arith)
    at_most_one finished h = absurd (omega arith)

-- The shutdown moves no chunk.
pub unqueued :
    (s : System) (w : ℕ) (q : Queue)
    → IsMatched s
    → w < length s.queues
    → ((j : ℕ) → jobs_of j q.jobs ≡ jobs_of j (queue_of s w).jobs)
    → (j : ℕ) → pending j (set s.queues w q) ≡ waits (phase_of s j)
unqueued s w q m room same j = omega (arith, pending-set s.queues w j q room, same j, m j)

pub accept-IsMatched : (r : StreamIds) (s : System) → IsMatched s → IsMatched (accept r s)
unfolding accept
accept-IsMatched (streaming total) s m j = m j ∙ sym (waits-append s.streams j total)
accept-IsMatched service_shutdown s m j = m j
accept-IsMatched count_zero s m j = m j
accept-IsMatched (count_too_large count max) s m j = m j
