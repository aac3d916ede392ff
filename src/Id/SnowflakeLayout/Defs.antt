-- ===== src/Id/SnowflakeLayout/Defs.antt =====
-- The constants and functions of the macro `define_snowflake_id!`.
use ferroid.Common.{ℕ, ◌+◌, ◌-◌, ◌<◌, ◌≡◌, Bool, ◌&&◌, leb, ◌==◌}
use ferroid.Common.{bit_and, bit_or, shl, shr, bit_not}
use ferroid.Id.Snowflake.{SnowflakeId}

-- The arguments of the macro; `bits` is `<$int>::BITS`.
pub record SnowflakeLayout : Type 0 where
  pub bits : ℕ
  pub reserved_bits : ℕ
  pub timestamp_bits : ℕ
  pub machine_id_bits : ℕ
  pub sequence_bits : ℕ

-- The compile-time assertion, and that no mask constant overflows while it is evaluated
-- (`1 << BITS` does where BITS is the whole width).
pub record IsLayout (l : SnowflakeLayout) : Type 0 where
  pub total : l.reserved_bits + l.timestamp_bits + l.machine_id_bits + l.sequence_bits ≡ l.bits
  pub timestamp_narrow : l.timestamp_bits < l.bits
  pub machine_id_narrow : l.machine_id_bits < l.bits
  pub sequence_narrow : l.sequence_bits < l.bits

module _ (l : SnowflakeLayout) where
  unfoldable pub sequence_shift : ℕ
  sequence_shift = 0

  unfoldable pub machine_id_shift : ℕ
  machine_id_shift = sequence_shift + l.sequence_bits

  unfoldable pub timestamp_shift : ℕ
  timestamp_shift = machine_id_shift + l.machine_id_bits

  unfoldable pub timestamp_mask : ℕ
  timestamp_mask = shl l.bits 1 l.timestamp_bits - 1

  unfoldable pub machine_id_mask : ℕ
  machine_id_mask = shl l.bits 1 l.machine_id_bits - 1

  unfoldable pub sequence_mask : ℕ
  sequence_mask = shl l.bits 1 l.sequence_bits - 1

  unfoldable pub valid_mask : ℕ
  valid_mask =
      bit_or
        (bit_or (shl l.bits timestamp_mask timestamp_shift)
          (shl l.bits machine_id_mask machine_id_shift))
        (shl l.bits sequence_mask sequence_shift)

  -- The conditions of the three `debug_assert!`s.
  unfoldable pub in_range : ℕ → ℕ → ℕ → Bool
  in_range timestamp machine_id sequence =
      leb timestamp timestamp_mask && leb machine_id machine_id_mask && leb sequence sequence_mask

  unfoldable pub from_components : ℕ → ℕ → ℕ → ℕ
  from_components timestamp machine_id sequence =
      let t = shl l.bits (bit_and timestamp timestamp_mask) timestamp_shift in
      let m = shl l.bits (bit_and machine_id machine_id_mask) machine_id_shift in
      let s = shl l.bits (bit_and sequence sequence_mask) sequence_shift in bit_or (bit_or t m) s

  unfoldable pub timestamp : ℕ → ℕ
  timestamp id = bit_and (shr id timestamp_shift) timestamp_mask

  unfoldable pub machine_id : ℕ → ℕ
  machine_id id = bit_and (shr id machine_id_shift) machine_id_mask

  unfoldable pub sequence : ℕ → ℕ
  sequence id = bit_and (shr id sequence_shift) sequence_mask

  unfoldable pub is_valid : ℕ → Bool
  is_valid id = bit_and id (bit_not l.bits valid_mask) == 0

  unfoldable pub into_valid : ℕ → ℕ
  into_valid id = bit_and id valid_mask

  -- `impl SnowflakeId for $name`
  abbrev pub snowflake_id : SnowflakeId
  snowflake_id = record {
    width = l.bits;
    timestamp = timestamp;
    max_timestamp = timestamp_mask;
    machine_id = machine_id;
    max_machine_id = machine_id_mask;
    sequence = sequence;
    max_sequence = sequence_mask;
    from_components = from_components;
    is_valid = is_valid;
    into_valid = into_valid;
  }
