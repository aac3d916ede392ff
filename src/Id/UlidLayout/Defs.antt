-- ===== src/Id/UlidLayout/Defs.antt =====
-- The constants and functions of the macro `define_ulid!`.
use ferroid.Common.{ℕ, ◌+◌, ◌-◌, ◌<◌, ◌≡◌, Bool, ◌==◌, Option, none, some}
use ferroid.Common.{bit_and, bit_or, shl, shr, bit_not}
use ferroid.Id.Ulid.{UlidId}

-- The arguments of the macro; `bits` is `<$int>::BITS`.
pub record UlidLayout : Type 0 where
  pub bits : ℕ
  pub reserved_bits : ℕ
  pub timestamp_bits : ℕ
  pub random_bits : ℕ

-- The compile-time assertion, and that no mask constant overflows while it is evaluated
-- (`1 << BITS` does where BITS is the whole width).
pub record IsLayout (l : UlidLayout) : Type 0 where
  pub total : l.reserved_bits + l.timestamp_bits + l.random_bits ≡ l.bits
  pub timestamp_narrow : l.timestamp_bits < l.bits
  pub random_narrow : l.random_bits < l.bits

module _ (l : UlidLayout) where
  unfoldable pub random_shift : ℕ
  random_shift = 0

  unfoldable pub timestamp_shift : ℕ
  timestamp_shift = random_shift + l.random_bits

  unfoldable pub timestamp_mask : ℕ
  timestamp_mask = shl l.bits 1 l.timestamp_bits - 1

  unfoldable pub random_mask : ℕ
  random_mask = shl l.bits 1 l.random_bits - 1

  unfoldable pub valid_mask : ℕ
  valid_mask =
      bit_or (shl l.bits timestamp_mask timestamp_shift) (shl l.bits random_mask random_shift)

  unfoldable pub from_components : ℕ → ℕ → ℕ
  from_components timestamp random =
      let t = shl l.bits (bit_and timestamp timestamp_mask) timestamp_shift in
      let r = shl l.bits (bit_and random random_mask) random_shift in bit_or t r

  unfoldable pub timestamp : ℕ → ℕ
  timestamp id = bit_and (shr id timestamp_shift) timestamp_mask

  unfoldable pub random : ℕ → ℕ
  random id = bit_and (shr id random_shift) random_mask

  unfoldable pub is_valid : ℕ → Bool
  is_valid id = bit_and id (bit_not l.bits valid_mask) == 0

  unfoldable pub into_valid : ℕ → ℕ
  into_valid id = bit_and id valid_mask

  -- `rand` is what the source of random numbers gives.
  unfoldable pub from_timestamp_and_rand : ℕ → ℕ → ℕ
  from_timestamp_and_rand timestamp rand = from_components timestamp rand

  -- `since` is the time since the Unix epoch in milliseconds, `none` for a time before it.
  unfoldable pub from_datetime_and_rand : Option ℕ → ℕ → ℕ
  from_datetime_and_rand since rand =
      from_components (elim since [ none ↦ 0 | some millis ↦ millis ]) rand

  -- `impl UlidId for $name`
  abbrev pub ulid_id : UlidId
  ulid_id = record {
    width = l.bits;
    timestamp = timestamp;
    max_timestamp = timestamp_mask;
    random = random;
    max_random = random_mask;
    from_components = from_components;
    is_valid = is_valid;
    into_valid = into_valid;
  }
