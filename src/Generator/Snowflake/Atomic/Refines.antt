-- ===== src/Generator/Snowflake/Atomic/Refines.antt =====
-- An undisturbed poll of the atomic generator is a poll of the basic one.
use ferroid.Common.{ℕ, ◌≡◌, refl, ap, ◌∙◌, some, arith, List, [], ◌∷◌, inl, inr}
use ferroid.Id.Snowflake.{SnowflakeId}
use ferroid.Generator.Poll.{Poll, Poll-cases}
use ferroid.Generator.Snowflake.Basic
use ferroid.Generator.Snowflake.Atomic.{poll_id, next_id, next_id_loop}

module _ (o : SnowflakeId) where
  -- Without interference the atomic generator answers as the basic one does, and leaves its state.
  pub poll_id-poll_id : (now state : ℕ) → poll_id o now state ≡ Basic.poll_id o now state
  unfolding poll_id Basic.poll_id
  poll_id-poll_id now state = ground arith

  loops_agree :
      (readings : List ℕ) (state : ℕ) (yields : List ℕ)
      → next_id_loop o readings state yields ≡ Basic.next_id_loop o readings state yields
  unfolding next_id_loop Basic.next_id_loop
  loops_agree [] state yields = refl
  loops_agree (now ∷ rest) state yields = elim (Poll-cases (Basic.poll_id o now state).0) [
    | inl (id, e) ↦
        rw (poll_id-poll_id now state, e, next_id_loop, Basic.next_id_loop)
          (ap
            (λ (r : Poll × ℕ). some (record { id = id; state = r.1; rest = rest; yields = yields }))
            (poll_id-poll_id now state))
    | inr (d, e) ↦
        rw (poll_id-poll_id now state, e, next_id_loop, Basic.next_id_loop)
          (ap (λ (r : Poll × ℕ). next_id_loop o rest r.1 (d ∷ yields)) (poll_id-poll_id now state)
            ∙ loops_agree rest (Basic.poll_id o now state).1 (d ∷ yields))
  ]

  -- Without interference the atomic generator does what the basic one does: a poll gives the same
  -- answer and leaves the same state, and `next_id` returns at the same reading with the same ID, state
  -- and back-offs.
  pub atomic-next_id :
      (readings : List ℕ) (now state : ℕ)
      → (poll_id o now state ≡ Basic.poll_id o now state)
        × (next_id o readings state ≡ Basic.next_id o readings state)
  unfolding next_id Basic.next_id
  atomic-next_id readings now state = (poll_id-poll_id now state, loops_agree readings state [])
