-- ===== src/Generator/Ulid/Basic.antt =====
-- `BasicUlidGenerator` of crates/ferroid/src/generator/ulid/basic.rs. It keeps no state: a poll takes
-- a reading of the clock and a random number.
use ferroid.Common.{ℕ, ◌+◌, ◌%◌, ◌≤◌, ◌<◌, ◌≡◌, refl, List, [], ◌∷◌, Option, none, some}
use ferroid.Id.Ulid.{UlidId, IsLawful, IsCanonical}
use ferroid.Generator.Poll.{Poll, ready, pending}
use ferroid.Generator.Ulid.BasicMono.{Reading}

module _ (o : UlidId) where
  unfoldable pub poll_id : Reading → Poll
  poll_id r = ready (o.from_components r.now r.rand)

  -- The loop over the readings that its polls will take; `none` if they do not suffice.
  unfoldable pub next_id : List Reading → Option ℕ
  unfolding poll_id
  next_id [] = none
  next_id (r ∷ rest) = elim (poll_id r) [ ready id ↦ some id | pending yield_for ↦ next_id rest ]

-- One reading is enough for `next_id`. The ID is valid, carries the reading and the random number
-- cut to its field, and lies above the ID of an earlier reading, whatever the random numbers are.
pub next_id_later :
    (o : UlidId)
    → IsLawful o
    → (earlier r : Reading) (rest : List Reading) → earlier.now < r.now
    → r.now ≤ o.max_timestamp
    → (id before : ℕ) × (next_id o (r ∷ rest) ≡ some id)
      × (next_id o (earlier ∷ rest) ≡ some before)
      × (before < id)
      × IsCanonical o id
      × (o.timestamp id ≡ r.now)
      × (o.random id ≡ r.rand % (o.max_random + 1))
unfolding next_id
next_id_later o law earlier r rest lt fit = (
  o.from_components r.now r.rand,
  o.from_components earlier.now earlier.rand,
  refl,
  refl,
  law.later _ _ _ _ lt fit,
  law.canonical _ _,
  law.timestamp_of _ _ fit,
  law.random_of _ _,
)
