-- ===== src/Id/Ulid.antt =====
-- The trait `UlidId` of crates/ferroid/src/id/ulid.rs, as a record of operations, its provided
-- methods, and the laws that the generators rely on. An ID is its raw word; `Self::Ty` is an
-- unsigned integer of `width` bits.
use ferroid.Common.{ℕ, ◌+◌, ◌%◌, ◌^◌, ◌≤◌, ◌<◌, ◌≡◌, Bool, true, ltb}

pub record UlidId : Type 0 where
  pub width : ℕ
  pub timestamp : ℕ → ℕ
  pub max_timestamp : ℕ
  pub random : ℕ → ℕ
  pub max_random : ℕ
  pub from_components : ℕ → ℕ → ℕ
  pub is_valid : ℕ → Bool
  pub into_valid : ℕ → ℕ

module _ (o : UlidId) where
  unfoldable pub has_random_room : ℕ → Bool
  has_random_room id = ltb (o.random id) o.max_random

  -- `+` on `Self::Ty` wraps where the build has no overflow checks.
  unfoldable pub next_random : ℕ → ℕ
  next_random id = (o.random id + 1) % 2 ^ o.width

  unfoldable pub increment_random : ℕ → ℕ
  unfolding next_random
  increment_random id = o.from_components (o.timestamp id) (next_random id)

  unfoldable pub rollover_to_timestamp : ℕ → ℕ → ℕ → ℕ
  rollover_to_timestamp id ts rand = o.from_components ts rand

  -- A word of the type, with no reserved bit set.
  pub record IsCanonical (id : ℕ) : Type 0 where
    pub fits : id < 2 ^ o.width
    pub valid : o.is_valid id ≡ true

  -- What an implementation of the trait promises to the generators.
  pub record IsLawful : Type 0 where
    pub timestamp_le : (id : ℕ) → o.timestamp id ≤ o.max_timestamp
    pub random_le : (id : ℕ) → o.random id ≤ o.max_random
    pub random_fits : o.max_random < 2 ^ o.width
    pub timestamp_of : (t r : ℕ) → t ≤ o.max_timestamp → o.timestamp (o.from_components t r) ≡ t
    -- Random numbers may be wider than their field, and are cut to it.
    pub random_of : (t r : ℕ) → o.random (o.from_components t r) ≡ r % (o.max_random + 1)
    pub canonical : (t r : ℕ) → IsCanonical (o.from_components t r)
    pub rebuilt : (id : ℕ) → IsCanonical id → o.from_components (o.timestamp id) (o.random id) ≡ id
    pub later :
        (t r t' r' : ℕ)
        → t < t'
        → t' ≤ o.max_timestamp
        → o.from_components t r < o.from_components t' r'
    pub next :
        (t r r' : ℕ) → r < r' → r' ≤ o.max_random → o.from_components t r < o.from_components t r'
