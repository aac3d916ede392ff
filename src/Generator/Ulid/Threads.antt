-- ===== src/Generator/Ulid/Threads.antt =====
-- Threads that poll one `AtomicMonoUlidGenerator`.
use mathlib.Core.Path.{subst}
use ferroid.Common.{
  ℕ, ◌≤◌, ◌≡◌, inl, inr, ◌∙◌, sym, arith, All, IsDescending, Bool-cases, ◌==◌, ==_iff,
}
use ferroid.Id.Ulid.{UlidId, IsLawful, IsCanonical}
use ferroid.Generator.Poll.{ready}
use ferroid.Generator.Snowflake.Atomic.{exchange, Plan}
use ferroid.Generator.Ulid.BasicMono
use ferroid.Generator.Ulid.BasicMono.{Reading}
use ferroid.Generator.Ulid.BasicMono.Step.{MonoSpec, poll_id-MonoSpec}
use ferroid.Generator.Ulid.AtomicMono.{plan, publish, poll_id, atomic_mono-poll_id}
use ferroid.Generator.Threads.{System, Reach}
use ferroid.Generator.Threads.Unique.{Exchanges, Advances, Reach-IsDescending}

module _ (o : UlidId) where
  -- A reading that the timestamp field can hold; the random number is any.
  abbrev pub IsReading : Reading → Type 0
  IsReading r = r.now ≤ o.max_timestamp

  abbrev pub plan_at : Reading → ℕ → Plan
  plan_at r current = plan o r.now r.rand current

  -- The states that threads get to from the word `id`.
  abbrev pub Polled : ℕ → System Reading → Type 0
  Polled id s = Reach IsReading plan_at (publish o) id s

  publish-Exchanges : Exchanges (publish o)
  unfolding publish
  publish-Exchanges c n state = elim (Bool-cases (state == c)) [
    | inl b ↦ inl (rw b, (==_iff _ _).0 b)
    | inr b ↦ inr (rw b)
  ]

undisturbed :
    (o : UlidId) (now rand c n : ℕ)
    → plan o now rand c ≡ exchange n
    → poll_id o now rand c c ≡ (ready n, n)
unfolding poll_id
undisturbed o now rand c n e = rw (e, poll_id) (ground arith)

module _ (o : UlidId) (law : IsLawful o) where
  plan-Advances : Advances (IsReading o) (plan_at o) (IsCanonical o)
  plan-Advances r c n canonical fit e = (spec.1.after, spec.1.canonical)
    where
      polled : BasicMono.poll_id o r.now r.rand c ≡ (ready n, n)
      polled = sym (atomic_mono-poll_id o r.now r.rand c) ∙ undisturbed o r.now r.rand c n e

      spec : MonoSpec o r.now r.rand c (ready n) n
      spec =
          subst (λ a. MonoSpec o r.now r.rand c a.0 a.1) polled
            (poll_id-MonoSpec o law r.now r.rand c canonical fit)

  -- In every interleaving of any number of threads, with loads that may be stale, clocks that may
  -- disagree, and any random numbers, with readings that the timestamp field can hold, from a valid
  -- ULID: the ULIDs handed out so far descend strictly from the latest back, so none is handed out
  -- twice; all are valid and lie at or below the shared word.
  pub mono_handed-IsDescending :
      {id : ℕ} {s : System Reading}
      → IsCanonical o id
      → Polled o id s
      → IsDescending s.handed × All (IsCanonical o) s.handed × All (λ x. x ≤ s.state) s.handed
  mono_handed-IsDescending canonical r =
      Reach-IsDescending (IsReading o) (plan_at o) (publish o) (IsCanonical o) (publish-Exchanges o)
        plan-Advances canonical r
