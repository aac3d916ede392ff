-- ===== src/Server/Stream/Serving.antt =====
-- The state of the workers between the rounds of a request.
use mathlib.Core.Path.{subst}
use ferroid.Common.{
  ℕ, ◌≤◌, ◌<◌, ◌≡◌, inl, inr, refl, sym, ◌∙◌, arith, Bool-cases, [], length, All-set, get_or, set,
  length-set, get_or-set_same, get_or-set_other, ◌==◌, ==_iff,
}
use ferroid.Id.Snowflake.{SnowflakeId}
use ferroid.Generator.Snowflake.Basic.Run.{FromMachine}
use ferroid.Server.Processor.{Handled, completed}
use ferroid.Server.Pool.Manager.{WorkerPool}
use ferroid.Server.Pool.Manager.Rounds.{IsReady}
use ferroid.Server.Stream.{Task, no_task, Server, survives, served}

abbrev pub task_of : Server → ℕ → Task
task_of server i = get_or server.tasks i no_task

-- `n` workers that all wait for requests with empty buffers; the generator of the worker `i` has the
-- machine number `machine i`.
pub record IsServing (o : SnowflakeId) (n : ℕ) (machine : ℕ → ℕ) (server : Server) : Type 0 where
  pub ready : IsReady n server.pool
  pub tasks : length server.tasks ≡ n
  pub drained : (i : ℕ) → i < n → (task_of server i).filled ≡ []
  pub from_machine : (i : ℕ) → i < n → FromMachine o (machine i) (task_of server i).generator

-- An ID of one of the workers, above the state of its generator.
abbrev pub IsNew : SnowflakeId → ℕ → (ℕ → ℕ) → Server → ℕ → Type 0
IsNew o n machine server id =
    (i : ℕ) × (i < n) × FromMachine o (machine i) id × ((task_of server i).generator < id)

module _ (o : SnowflakeId) (n : ℕ) (machine : ℕ → ℕ) where
  -- The worker `i` has served a chunk.
  pub served-IsServing :
      (server : Server) (pool : WorkerPool) (i : ℕ) (h : Handled)
      → IsServing o n machine server
      → IsReady n pool
      → i < n
      → h.exit ≡ completed
      → h.filled ≡ []
      → FromMachine o (machine i) h.generator
      → IsServing o n machine (served (record { pool = pool; tasks = server.tasks }) i h)
  unfolding served survives
  served-IsServing server pool i h s ready lt done empty from = record {
    ready = record {
      not_cancelled = ready.not_cancelled;
      number = length-set pool.workers i _ ∙ ready.number;
      some_worker = ready.some_worker;
      all_open = All-set _ pool.workers i _ ready.all_open (rw done refl);
    };
    tasks = length-set server.tasks i _ ∙ s.tasks;
    drained = λ j hj. at_task (λ (k : ℕ) (t : Task). t.filled ≡ []) empty s.drained j hj;
    from_machine = λ j hj.
        at_task (λ (k : ℕ) (t : Task). FromMachine o (machine k) t.generator) from s.from_machine j
          hj;
  }
    where
      new_task : Task
      new_task = record { filled = h.filled; generator = h.generator }

      at_task :
          (P : ℕ → Task → Type 0)
          → P i new_task
          → ((j : ℕ) → j < n → P j (task_of server j))
          → (j : ℕ) → j < n
          → P j (get_or (set server.tasks i new_task) j no_task)
      at_task P hi others j hj = elim (Bool-cases (i == j)) [
        | inl e ↦
            subst (λ (k : ℕ). P k (get_or (set server.tasks i new_task) k no_task))
              ((==_iff i j).0 e)
              (subst (λ t. P i t)
                (sym (get_or-set_same server.tasks i new_task no_task (omega (arith, s.tasks)))) hi)
        | inr e ↦
            subst (λ t. P j t) (sym (get_or-set_other server.tasks i j new_task no_task e))
              (others j hj)
      ]

  -- What is new after that was new before.
  pub served-IsNew :
      (server : Server) (pool : WorkerPool) (i : ℕ) (h : Handled) (id : ℕ)
      → length server.tasks ≡ n
      → i < n
      → (task_of server i).generator ≤ h.generator
      → IsNew o n machine (served (record { pool = pool; tasks = server.tasks }) i h) id
      → IsNew o n machine server id
  unfolding served
  served-IsNew server pool i h id number lt le (j, hj, from, above) = (
    j,
    hj,
    from,
    elim (Bool-cases (i == j)) [
      | inl e ↦
          let same : i ≡ j = (==_iff i j).0 e in
          subst (λ (k : ℕ). (task_of server k).generator < id) same (omega (arith, le, at_i same))
      | inr e ↦ rw (get_or-set_other server.tasks i j _ no_task e) at above
    ],
  )
    where
      at_i : i ≡ j → h.generator < id
      at_i same =
          rw (sym same, get_or-set_same server.tasks i _ no_task (omega (arith, number))) at above
