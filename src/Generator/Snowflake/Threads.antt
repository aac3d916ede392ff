-- ===== src/Generator/Snowflake/Threads.antt =====
-- Threads that poll one `AtomicSnowflakeGenerator`.
use mathlib.Core.Path.{subst}
use ferroid.Common.{
  ℕ, ◌≤◌, ◌≡◌, inl, inr, ◌∙◌, sym, arith, All, IsDescending, Bool-cases, ◌==◌, ==_iff,
}
use ferroid.Id.Snowflake.{SnowflakeId, IsLawful}
use ferroid.Generator.Poll.{ready}
use ferroid.Generator.Snowflake.Basic
use ferroid.Generator.Snowflake.Basic.Step.{PollSpec, poll_id-PollSpec}
use ferroid.Generator.Snowflake.Basic.Run.{FromMachine, keeps_machine}
use ferroid.Generator.Snowflake.Atomic.{plan, publish, poll_id, exchange}
use ferroid.Generator.Snowflake.Atomic.Refines.{poll_id-poll_id}
use ferroid.Generator.Threads.{System, Reach}
use ferroid.Generator.Threads.Unique.{Exchanges, Advances, Reach-IsDescending}

module _ (o : SnowflakeId) where
  -- A reading that the timestamp field can hold.
  abbrev pub IsReading : ℕ → Type 0
  IsReading now = now ≤ o.max_timestamp

  -- The states that threads get to from the word `id`.
  abbrev pub Polled : ℕ → System ℕ → Type 0
  Polled id s = Reach IsReading (plan o) (publish o) id s

  publish-Exchanges : Exchanges (publish o)
  unfolding publish
  publish-Exchanges c n state = elim (Bool-cases (state == c)) [
    | inl b ↦ inl (rw b, (==_iff _ _).0 b)
    | inr b ↦ inr (rw b)
  ]

undisturbed :
    (o : SnowflakeId) (now c n : ℕ) → plan o now c ≡ exchange n → poll_id o now c ≡ (ready n, n)
unfolding poll_id
undisturbed o now c n e = rw (e, poll_id) (ground arith)

module _ (o : SnowflakeId) (law : IsLawful o) (m : ℕ) where
  plan-Advances : Advances (IsReading o) (plan o) (FromMachine o m)
  plan-Advances now c n f fit e = (spec.1.after, keeps_machine o now c m (ready n) n f spec)
    where
      polled : Basic.poll_id o now c ≡ (ready n, n)
      polled = sym (poll_id-poll_id o now c) ∙ undisturbed o now c n e

      spec : PollSpec o now c (ready n) n
      spec = subst (λ r. PollSpec o now c r.0 r.1) polled (poll_id-PollSpec o law now c f.1 fit)

  -- In every interleaving of any number of threads, with loads that may be stale and clocks that
  -- may disagree, with readings that the timestamp field can hold, from a valid ID of machine `m`: the
  -- IDs handed out so far descend strictly from the latest back, so none is
  -- handed out twice; all are valid, carry the machine number, and lie at or below the shared word.
  pub handed-IsDescending :
      {id : ℕ} {s : System ℕ}
      → FromMachine o m id
      → Polled o id s
      → IsDescending s.handed × All (FromMachine o m) s.handed × All (λ x. x ≤ s.state) s.handed
  handed-IsDescending f r =
      Reach-IsDescending (IsReading o) (plan o) (publish o) (FromMachine o m) (publish-Exchanges o)
        plan-Advances f r
