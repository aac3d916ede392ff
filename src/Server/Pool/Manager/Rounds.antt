-- ===== src/Server/Pool/Manager/Rounds.antt =====
-- How the pool deals its requests out.
use native.Mathlib.Nat.{mod-lt, add-mul-div_right, mod-eq_of_lt}
use mathlib.Core.List.{append_assoc, append-nil}
use ferroid.Common.{
  ℕ, ◌+◌, ◌-◌, ◌*◌, ◌/◌, ◌%◌, ◌^◌, ◌<◌, ◌≡◌, inl, inr, refl, sym, ap, ◌∙◌, arith, true, false,
  Bool-cases, List, [], ◌∷◌, ◌++◌, length, All, replicate, get_or, set, ◌==◌, ==_iff,
}
use ferroid.Common.{length-set, get_or-set_same, get_or-set_other, All-get_or, All-set}
use ferroid.Server.Pool.Worker.{WorkRequest}
use ferroid.Server.Pool.Manager.Dealt.{dealt, length-dealt}
use ferroid.Server.Pool.Manager.{
  Sender, WorkerPool, sent, gone, enqueue, send_to_next_worker, send_all, next_worker_index,
}

-- A pool of `n` workers, all of which take requests.
pub record IsReady (n : ℕ) (pool : WorkerPool) : Type 0 where
  pub not_cancelled : pool.cancelled ≡ false
  pub number : length pool.workers ≡ n
  pub some_worker : 0 < n
  pub all_open : All (λ (w : Sender). w.is_open ≡ true) pool.workers

-- The pool after one request.
abbrev pub after_send : ℕ → WorkerPool → WorkRequest → WorkerPool
after_send n pool request = record {
  workers =
      set pool.workers (pool.next_worker % n)
        (enqueue (get_or pool.workers (pool.next_worker % n) gone) request);
  next_worker = pool.next_worker + 1;
  cancelled = pool.cancelled;
  shutdown_timeout = pool.shutdown_timeout;
}

pub send_one :
    (n : ℕ) (pool : WorkerPool) (request : WorkRequest)
    → IsReady n pool
    → pool.next_worker + 1 < 2 ^ 64
    → send_to_next_worker pool request ≡ (sent, after_send n pool request)
unfolding send_to_next_worker next_worker_index
send_one n pool request ready fits =
    let nonzero : (length pool.workers == 0) ≡ false =
      ground (arith, ready.number, ready.some_worker) in
    let opened : (get_or pool.workers (pool.next_worker % n) gone).is_open ≡ true =
      All-get_or _ pool.workers (pool.next_worker % n) gone ready.all_open
        (omega (arith, ready.number, mod-lt pool.next_worker ready.some_worker)) in
    rw (ready.not_cancelled, nonzero, ready.number, opened, mod-eq_of_lt fits) refl

pub after_send-IsReady :
    (n : ℕ) (pool : WorkerPool) (request : WorkRequest)
    → IsReady n pool
    → IsReady n (after_send n pool request)
after_send-IsReady n pool request ready = record {
  not_cancelled = ready.not_cancelled;
  number = length-set pool.workers _ _ ∙ ready.number;
  some_worker = ready.some_worker;
  all_open = All-set _ pool.workers _ _ ready.all_open (
      All-get_or _ pool.workers (pool.next_worker % n) gone ready.all_open
        (omega (arith, ready.number, mod-lt pool.next_worker ready.some_worker)));
}

-- The queue of a worker after one request.
queue-after_send :
    (n : ℕ) (pool : WorkerPool) (request : WorkRequest) (requests : List WorkRequest) (i : ℕ)
    → IsReady n pool
    → i < n
    → (get_or (after_send n pool request).workers i gone).queue
        ++ dealt n (pool.next_worker + 1) i requests
      ≡ (get_or pool.workers i gone).queue ++ dealt n pool.next_worker i (request ∷ requests)
queue-after_send n pool request requests i ready h = elim (Bool-cases (pool.next_worker % n == i)) [
  | inl e ↦
      let same : pool.next_worker % n ≡ i = (==_iff _ i).0 e in
      rw
        (
          e,
          same,
          get_or-set_same pool.workers i (enqueue (get_or pool.workers i gone) request) gone
              (omega (arith, ready.number)),
        )
        (append_assoc (get_or pool.workers i gone).queue (request ∷ []) _)
  | inr e ↦ rw (e, get_or-set_other pool.workers (pool.next_worker % n) i _ gone e) refl
]

send_all-dealt :
    (n : ℕ) (requests : List WorkRequest) (pool : WorkerPool) (i : ℕ)
    → IsReady n pool
    → i < n
    → pool.next_worker + length requests < 2 ^ 64
    → ((send_all pool requests).0 ≡ replicate (length requests) sent)
      × ((get_or (send_all pool requests).1.workers i gone).queue
          ≡ (get_or pool.workers i gone).queue ++ dealt n pool.next_worker i requests)
unfolding send_all
send_all-dealt n [] pool i ready h fits = (refl, sym (append-nil _))
send_all-dealt n (request ∷ requests) pool i ready h fits =
    let (results, queue) =
      send_all-dealt n requests (after_send n pool request) i
        (after_send-IsReady n pool request ready) h (omega arith) in
    rw (send_one n pool request ready (omega arith), send_all)
      (ap (λ rs. sent ∷ rs) results, queue ∙ queue-after_send n pool request requests i ready h)

-- A pool of `n` open workers that is not shut down, with `k * n` requests to send before its counter
-- wraps: all are sent; each worker gets, behind what it had, those whose number is its own modulo
-- `n`, in order, and these are exactly `k`.
pub send_all_fair :
    (n k i : ℕ) (requests : List WorkRequest) (pool : WorkerPool)
    → pool.cancelled ≡ false
    → length pool.workers ≡ n
    → All (λ (w : Sender). w.is_open ≡ true) pool.workers
    → i < n
    → length requests ≡ k * n
    → pool.next_worker + length requests < 2 ^ 64
    → ((send_all pool requests).0 ≡ replicate (length requests) sent)
      × ((get_or (send_all pool requests).1.workers i gone).queue
          ≡ (get_or pool.workers i gone).queue ++ dealt n pool.next_worker i requests)
      × (length (dealt n pool.next_worker i requests) ≡ k)
send_all_fair n k i requests pool live number opened h whole fits =
    let (results, queue) =
      send_all-dealt n requests pool i
        (record {
          not_cancelled = live;
          number = number;
          some_worker = omega arith;
          all_open = opened;
        })
        h fits in
    (
      results,
      queue,
      omega (
        arith,
        length-dealt n pool.next_worker i requests h,
        ap (λ (t : ℕ). t / n) more,
        add-mul-div_right (pool.next_worker + (n - 1 - i)) k {z = n} (omega arith),
      ),
    )
  where
    more : pool.next_worker + length requests + (n - 1 - i) ≡ pool.next_worker + (n - 1 - i) + k * n
    more = omega (arith, whole)
