-- ===== src/Generator/Ulid/AtomicMono.antt =====
-- `AtomicMonoUlidGenerator` of crates/ferroid/src/generator/ulid/atomic_mono.rs, up to its
-- compare-exchange and then from it on.
use ferroid.Common.{
  ℕ, ◌-◌, ◌≡◌, compare, Ordering, if◌then◌else◌, ◌==◌, arith, refl, ap, ◌∙◌, inl, inr, List, [],
  ◌∷◌, Option, none, some,
}
use ferroid.Id.Ulid.{UlidId, has_random_room, increment_random, rollover_to_timestamp}
use ferroid.Generator.Poll.{Poll, ready, pending, Poll-cases}
use ferroid.Generator.Snowflake.Atomic.{Plan, return_early, exchange}
use ferroid.Generator.Ulid.BasicMono
use ferroid.Generator.Ulid.BasicMono.{Reading}

module _ (o : UlidId) where
  unfoldable pub from_components : ℕ → ℕ → ℕ
  from_components timestamp random = o.from_components timestamp random

  unfoldable pub new : ℕ
  unfolding from_components
  new = from_components 0 0

  unfoldable pub cold_clock_behind : ℕ → ℕ → Poll
  cold_clock_behind now current_ts = pending (current_ts - now)

  unfoldable pub plan : ℕ → ℕ → ℕ → Plan
  unfolding cold_clock_behind
  plan now rand current_id = elim (compare now (o.timestamp current_id)) [
    | Ordering.eq ↦
        if has_random_room o current_id
        then exchange (increment_random o current_id)
        else return_early (pending 1)
    | Ordering.gt ↦ exchange (rollover_to_timestamp o current_id now rand)
    | Ordering.lt ↦ return_early (cold_clock_behind now (o.timestamp current_id))
  ]

  -- The compare-exchange on the shared word `state`: the result, and the word that it leaves.
  unfoldable pub publish : ℕ → ℕ → ℕ → Poll × ℕ
  publish current_raw next_id state =
      if state == current_raw then (ready next_id, next_id) else (pending 0, state)

  -- A poll that loads `current` while the word is `state` at its compare-exchange.
  unfoldable pub poll_id : ℕ → ℕ → ℕ → ℕ → Poll × ℕ
  unfolding plan publish
  poll_id now rand current state = elim (plan now rand current) [
    | return_early outcome ↦ (outcome, state)
    | exchange next_id ↦ publish current next_id state
  ]

  -- The loop of `next_id`, where no other thread disturbs it: the ID with the word that is left;
  -- `none` if the readings do not suffice.
  unfoldable pub next_id : List Reading → ℕ → Option (ℕ × ℕ)
  unfolding poll_id
  next_id [] state = none
  next_id (r ∷ rest) state =
      let (outcome, state') = poll_id r.now r.rand state state in
      elim outcome [ ready id ↦ some (id, state') | pending yield_for ↦ next_id rest state' ]

  pub atomic_mono-poll_id :
      (now rand state : ℕ) → poll_id now rand state state ≡ BasicMono.poll_id o now rand state
  unfolding poll_id BasicMono.poll_id
  atomic_mono-poll_id now rand state = ground arith

  loops_agree :
      (readings : List Reading) (state : ℕ)
      → next_id readings state ≡ BasicMono.next_id o readings state
  unfolding next_id BasicMono.next_id
  loops_agree [] state = refl
  loops_agree (r ∷ rest) state = elim (Poll-cases (BasicMono.poll_id o r.now r.rand state).0) [
    | inl (id, e) ↦
        rw (atomic_mono-poll_id r.now r.rand state, e, next_id, BasicMono.next_id)
          (ap (λ (a : Poll × ℕ). some (id, a.1)) (atomic_mono-poll_id r.now r.rand state))
    | inr (d, e) ↦
        rw (atomic_mono-poll_id r.now r.rand state, e, next_id, BasicMono.next_id)
          (ap (λ (a : Poll × ℕ). next_id rest a.1) (atomic_mono-poll_id r.now r.rand state)
            ∙ loops_agree rest (BasicMono.poll_id o r.now r.rand state).1)
  ]

  -- Without interference the atomic generator does what the basic monotonic one does: a poll gives the
  -- same answer and leaves the same state, and `next_id` returns at the same reading with the same ID
  -- and state.
  pub atomic_mono-next_id :
      (readings : List Reading) (now rand state : ℕ)
      → (poll_id now rand state state ≡ BasicMono.poll_id o now rand state)
        × (next_id readings state ≡ BasicMono.next_id o readings state)
  atomic_mono-next_id readings now rand state =
      (atomic_mono-poll_id now rand state, loops_agree readings state)
