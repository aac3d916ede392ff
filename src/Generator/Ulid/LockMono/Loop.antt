-- ===== src/Generator/Ulid/LockMono/Loop.antt =====
-- The loop of the locked monotonic generator.
use ferroid.Common.{ℕ, ◌≡◌, refl, ap, ◌∙◌, true, false, List, [], ◌∷◌, Option, none, some, inl, inr}
use ferroid.Id.Ulid.{UlidId}
use ferroid.Generator.Poll.{Poll, ready, pending, lock_poisoned, Result, ok, err, Poll-cases}
use ferroid.Generator.Snowflake.Lock.{Mutex}
use ferroid.Generator.Ulid.BasicMono
use ferroid.Generator.Ulid.LockMono.{try_next_id, lock_mono-poll_id}

abbrev unlocked : ℕ → Mutex
unlocked id = record { id = id; poisoned = false }

-- What `try_next_id` on a sound mutex makes of the basic monotonic generator's answer.
abbrev pub mono_next_of : Option (ℕ × ℕ) → Option (Result ℕ × Mutex)
mono_next_of none = none
mono_next_of (some (id, state)) = some (ok id, record { id = state; poisoned = false })

module _ (o : UlidId) where
  basic_ready :
      (r : BasicMono.Reading) (rest : List BasicMono.Reading) (state id : ℕ)
      → (BasicMono.poll_id o r.now r.rand state).0 ≡ ready id
      → BasicMono.next_id o (r ∷ rest) state ≡ some (id, (BasicMono.poll_id o r.now r.rand state).1)
  unfolding BasicMono.next_id
  basic_ready r rest state id e = rw (e, BasicMono.next_id) refl

  basic_pending :
      (r : BasicMono.Reading) (rest : List BasicMono.Reading) (state d : ℕ)
      → (BasicMono.poll_id o r.now r.rand state).0 ≡ pending d
      → BasicMono.next_id o (r ∷ rest) state
        ≡ BasicMono.next_id o rest (BasicMono.poll_id o r.now r.rand state).1
  unfolding BasicMono.next_id
  basic_pending r rest state d e = rw (e, BasicMono.next_id) refl

  locked_ready :
      (r : BasicMono.Reading) (rest : List BasicMono.Reading) (state id : ℕ)
      → (BasicMono.poll_id o r.now r.rand state).0 ≡ ready id
      → try_next_id o (r ∷ rest) (unlocked state)
        ≡ some (ok id, unlocked (BasicMono.poll_id o r.now r.rand state).1)
  unfolding try_next_id
  locked_ready r rest state id e =
      rw ((lock_mono-poll_id o r.now r.rand state).0, e, try_next_id)
        (ap (λ (a : Result Poll × Mutex). some (ok id, a.1))
          (lock_mono-poll_id o r.now r.rand state).0)

  locked_pending :
      (r : BasicMono.Reading) (rest : List BasicMono.Reading) (state d : ℕ)
      → (BasicMono.poll_id o r.now r.rand state).0 ≡ pending d
      → try_next_id o (r ∷ rest) (unlocked state)
        ≡ try_next_id o rest (unlocked (BasicMono.poll_id o r.now r.rand state).1)
  unfolding try_next_id
  locked_pending r rest state d e =
      rw ((lock_mono-poll_id o r.now r.rand state).0, e, try_next_id)
        (ap (λ (a : Result Poll × Mutex). try_next_id o rest a.1)
          (lock_mono-poll_id o r.now r.rand state).0)

  sound_loop :
      (readings : List BasicMono.Reading) (state : ℕ)
      → try_next_id o readings (unlocked state) ≡ mono_next_of (BasicMono.next_id o readings state)
  unfolding try_next_id BasicMono.next_id
  sound_loop [] state = refl
  sound_loop (r ∷ rest) state = elim (Poll-cases (BasicMono.poll_id o r.now r.rand state).0) [
    | inl (id, e) ↦ locked_ready r rest state id e ∙ rw (basic_ready r rest state id e) refl
    | inr (d, e) ↦
        locked_pending r rest state d e
        ∙ sound_loop rest (BasicMono.poll_id o r.now r.rand state).1
        ∙ rw (basic_pending r rest state d e) refl
  ]

  -- On a sound mutex `try_next_id` returns exactly when the basic monotonic generator's `next_id`
  -- does, with its ID and state, and never an error; on a poisoned one it returns the error at its
  -- first poll.
  pub lock_mono-next_id :
      (r : BasicMono.Reading) (readings : List BasicMono.Reading) (state : ℕ)
      → (try_next_id o readings (record { id = state; poisoned = false })
          ≡ mono_next_of (BasicMono.next_id o readings state))
        × (try_next_id o (r ∷ readings) (record { id = state; poisoned = true })
            ≡ some (err lock_poisoned, record { id = state; poisoned = true }))
  unfolding try_next_id
  lock_mono-next_id r readings state = (
    sound_loop readings state,
    rw ((lock_mono-poll_id o r.now r.rand state).1, try_next_id)
        (ap (λ (a : Result Poll × Mutex). some (err lock_poisoned, a.1))
          (lock_mono-poll_id o r.now r.rand state).1),
  )
