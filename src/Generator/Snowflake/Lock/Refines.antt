-- ===== src/Generator/Snowflake/Lock/Refines.antt =====
-- The locked generator does what the basic one does, until its mutex is poisoned.
use ferroid.Common.{
  ℕ, ◌≡◌, refl, arith, ap, ◌∙◌, true, false, List, [], ◌∷◌, some, none, Option, inl, inr,
}
use ferroid.Id.Snowflake.{SnowflakeId}
use ferroid.Generator.Poll.{Poll, ready, pending, lock_poisoned, Result, ok, err, Poll-cases}
use ferroid.Generator.Snowflake.Basic
use ferroid.Generator.Snowflake.Basic.Loop
use ferroid.Generator.Snowflake.Lock.{Mutex, try_poll_id, try_next_id}

abbrev unlocked : ℕ → Mutex
unlocked id = record { id = id; poisoned = false }

module _ (o : SnowflakeId) where
  -- On a sound mutex a poll returns what the basic generator's poll returns, and stores the same
  -- state; on a poisoned one it returns the error and stores nothing.
  pub try_poll_id-poll_id :
      (now id : ℕ)
      → (try_poll_id o now (record { id = id; poisoned = false }) ≡ (
        ok (Basic.poll_id o now id).0,
        record { id = (Basic.poll_id o now id).1; poisoned = false },
      ))
        × (try_poll_id o now (record { id = id; poisoned = true })
            ≡ (err lock_poisoned, record { id = id; poisoned = true }))
  unfolding try_poll_id Basic.poll_id
  try_poll_id-poll_id now id = ground arith

  -- What `try_next_id` on a sound mutex makes of the basic generator's answer.
  abbrev pub next_of : Option Basic.Next → Option (Result ℕ × Mutex)
  next_of none = none
  next_of (some n) = some (ok n.id, record { id = n.state; poisoned = false })

  locked_ready :
      (now id i : ℕ) (rest : List ℕ)
      → (Basic.poll_id o now id).0 ≡ ready i
      → try_next_id o (now ∷ rest) (unlocked id) ≡ some (ok i, unlocked (Basic.poll_id o now id).1)
  unfolding try_next_id
  locked_ready now id i rest e =
      rw ((try_poll_id-poll_id now id).0, e, try_next_id)
        (ap (λ (r : Result Poll × Mutex). some (ok i, r.1)) (try_poll_id-poll_id now id).0)

  locked_pending :
      (now id d : ℕ) (rest : List ℕ)
      → (Basic.poll_id o now id).0 ≡ pending d
      → try_next_id o (now ∷ rest) (unlocked id)
        ≡ try_next_id o rest (unlocked (Basic.poll_id o now id).1)
  unfolding try_next_id
  locked_pending now id d rest e =
      rw ((try_poll_id-poll_id now id).0, e, try_next_id)
        (ap (λ (r : Result Poll × Mutex). try_next_id o rest r.1) (try_poll_id-poll_id now id).0)

  try_next_id-next_id_loop :
      (readings : List ℕ) (id : ℕ) (yields : List ℕ)
      → try_next_id o readings (unlocked id) ≡ next_of (Basic.next_id_loop o readings id yields)
  unfolding try_next_id Basic.next_id_loop
  try_next_id-next_id_loop [] id yields = refl
  try_next_id-next_id_loop (now ∷ rest) id yields = elim (Poll-cases (Basic.poll_id o now id).0) [
    | inl (i, e) ↦ locked_ready now id i rest e ∙ rw (Loop.loop_ready o now id i rest yields e)
    | inr (d, e) ↦
        locked_pending now id d rest e
        ∙ try_next_id-next_id_loop rest (Basic.poll_id o now id).1 (d ∷ yields)
        ∙ rw (Loop.loop_pending o now id d rest yields e)
  ]

  -- On a sound mutex `try_next_id` returns exactly when the basic generator's `next_id` does, with
  -- its ID and state, and never an error; on a poisoned one it returns the error at once.
  pub try_next_id-next_id :
      (readings : List ℕ) (id now : ℕ)
      → (try_next_id o readings (record { id = id; poisoned = false })
          ≡ next_of (Basic.next_id o readings id))
        × (try_next_id o (now ∷ readings) (record { id = id; poisoned = true })
            ≡ some (err lock_poisoned, record { id = id; poisoned = true }))
  unfolding try_next_id Basic.next_id
  try_next_id-next_id readings id now = (
    try_next_id-next_id_loop readings id [],
    rw ((try_poll_id-poll_id now id).1, try_next_id)
        (ap (λ (r : Result Poll × Mutex). some (err lock_poisoned, r.1))
          (try_poll_id-poll_id now id).1),
  )
