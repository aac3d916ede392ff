-- ===== src/Id/Snowflake.antt =====
-- The trait `SnowflakeId` of crates/ferroid/src/id/snowflake.rs, as a record of operations, its
-- provided methods, and the laws that the generators rely on.
-- An ID is its raw word, as the `repr(transparent)` struct is; `Self::Ty` is an unsigned integer
-- of `width` bits. `to_raw` and `from_raw` are the identity.
use ferroid.Common.{ℕ, ◌+◌, ◌%◌, ◌^◌, ◌≤◌, ◌<◌, ◌≡◌, Bool, true, ltb}

pub record SnowflakeId : Type 0 where
  pub width : ℕ
  pub timestamp : ℕ → ℕ
  pub max_timestamp : ℕ
  pub machine_id : ℕ → ℕ
  pub max_machine_id : ℕ
  pub sequence : ℕ → ℕ
  pub max_sequence : ℕ
  pub from_components : ℕ → ℕ → ℕ → ℕ
  pub is_valid : ℕ → Bool
  pub into_valid : ℕ → ℕ

module _ (o : SnowflakeId) where
  unfoldable pub has_sequence_room : ℕ → Bool
  has_sequence_room id = ltb (o.sequence id) o.max_sequence

  -- `+` on `Self::Ty` wraps where the build has no overflow checks.
  unfoldable pub next_sequence : ℕ → ℕ
  next_sequence id = (o.sequence id + 1) % 2 ^ o.width

  unfoldable pub increment_sequence : ℕ → ℕ
  unfolding next_sequence
  increment_sequence id = o.from_components (o.timestamp id) (o.machine_id id) (next_sequence id)

  unfoldable pub rollover_to_timestamp : ℕ → ℕ → ℕ
  rollover_to_timestamp id ts = o.from_components ts (o.machine_id id) 0

  -- A word of the type, with no reserved bit set.
  pub record IsCanonical (id : ℕ) : Type 0 where
    pub fits : id < 2 ^ o.width
    pub valid : o.is_valid id ≡ true

  -- What an implementation of the trait promises to the generators.
  pub record IsLawful : Type 0 where
    pub timestamp_le : (id : ℕ) → o.timestamp id ≤ o.max_timestamp
    pub machine_id_le : (id : ℕ) → o.machine_id id ≤ o.max_machine_id
    pub sequence_le : (id : ℕ) → o.sequence id ≤ o.max_sequence
    pub sequence_fits : o.max_sequence < 2 ^ o.width
    pub timestamp_of : (t m s : ℕ) → t ≤ o.max_timestamp → o.timestamp (o.from_components t m s) ≡ t
    pub machine_id_of :
        (t m s : ℕ) → m ≤ o.max_machine_id → o.machine_id (o.from_components t m s) ≡ m
    pub sequence_of : (t m s : ℕ) → s ≤ o.max_sequence → o.sequence (o.from_components t m s) ≡ s
    pub canonical : (t m s : ℕ) → IsCanonical (o.from_components t m s)
    pub rebuilt :
        (id : ℕ)
        → IsCanonical id
        → o.from_components (o.timestamp id) (o.machine_id id) (o.sequence id) ≡ id
    pub later :
        (t m s t' m' s' : ℕ)
        → t < t'
        → t' ≤ o.max_timestamp
        → o.from_components t m s < o.from_components t' m' s'
    pub next :
        (t m s s' : ℕ)
        → s < s'
        → s' ≤ o.max_sequence
        → o.from_components t m s < o.from_components t m s'
