-- ===== src/Id/SnowflakeLayout/Fields.antt =====
-- The packed word as arithmetic: the bit operations of a layout restated by `*`, `/` and `%`.
use mathlib.Core.Path.{subst}
use native.Mathlib.Nat.{mod-lt}
use ferroid.Common.{ℕ, ◌+◌, ◌-◌, ◌*◌, ◌/◌, ◌%◌, ◌^◌, ◌<◌, ◌≡◌, ap, ◌∙◌, arith}
use ferroid.Common.{bit_and, bit_or, bit_not, shl, shr, bit_and_low, pow_pos, shl_one}
use ferroid.Common.{join_three, packed_ones, bit_not-ones, high_bits_clear, true, ◌↔◌, ==_iff}
use ferroid.Id.SnowflakeLayout.Defs.{
  SnowflakeLayout, IsLayout, timestamp_mask, machine_id_mask, sequence_mask, valid_mask,
  from_components, timestamp, machine_id, sequence, sequence_shift, timestamp_shift,
  machine_id_shift, into_valid, is_valid,
}

module _ (l : SnowflakeLayout) where
  -- The width of the three fields together.
  abbrev pub used_bits : ℕ
  used_bits = l.timestamp_bits + l.machine_id_bits + l.sequence_bits

  -- The word that holds three fields, each of which fits its width.
  abbrev pub packed : ℕ → ℕ → ℕ → ℕ
  packed t m s = (t * 2 ^ l.machine_id_bits + m) * 2 ^ l.sequence_bits + s

  machine_id_shift_lem : machine_id_shift l ≡ l.sequence_bits
  unfolding machine_id_shift sequence_shift
  machine_id_shift_lem = omega arith

  timestamp_shift_lem : timestamp_shift l ≡ l.sequence_bits + l.machine_id_bits
  unfolding timestamp_shift
  timestamp_shift_lem = rw machine_id_shift_lem

module _ (l : SnowflakeLayout) (good : IsLayout l) where
  pub timestamp_mask_lem : timestamp_mask l ≡ 2 ^ l.timestamp_bits - 1
  unfolding timestamp_mask
  timestamp_mask_lem = rw (shl_one l.bits l.timestamp_bits good.timestamp_narrow)

  pub machine_id_mask_lem : machine_id_mask l ≡ 2 ^ l.machine_id_bits - 1
  unfolding machine_id_mask
  machine_id_mask_lem = rw (shl_one l.bits l.machine_id_bits good.machine_id_narrow)

  pub sequence_mask_lem : sequence_mask l ≡ 2 ^ l.sequence_bits - 1
  unfolding sequence_mask
  sequence_mask_lem = rw (shl_one l.bits l.sequence_bits good.sequence_narrow)

  join_fields :
      (t m s : ℕ)
      → t < 2 ^ l.timestamp_bits
      → m < 2 ^ l.machine_id_bits
      → s < 2 ^ l.sequence_bits
      → bit_or
          (bit_or (shl l.bits t (timestamp_shift l)) (shl l.bits m (machine_id_shift l)))
          (shl l.bits s (sequence_shift l))
        ≡ packed l t m s
  unfolding sequence_shift
  join_fields t m s ht hm hs =
      rw (timestamp_shift_lem l, machine_id_shift_lem l)
        (join_three l.bits l.timestamp_bits l.machine_id_bits l.sequence_bits t m s ht hm hs
          (omega (arith, good.total)))

  -- The constructor cuts each component to its width and packs the three.
  pub from_components_lem :
      (t m s : ℕ)
      → from_components l t m s
        ≡ packed l (t % 2 ^ l.timestamp_bits) (m % 2 ^ l.machine_id_bits) (s % 2 ^ l.sequence_bits)
  unfolding from_components
  from_components_lem t m s =
      simp (timestamp_mask_lem, machine_id_mask_lem, sequence_mask_lem, bit_and_low)
        (join_fields _ _ _ (mod-lt t (pow_pos _)) (mod-lt m (pow_pos _)) (mod-lt s (pow_pos _)))

  pub timestamp_lem :
      (id : ℕ)
      → timestamp l id ≡ id / 2 ^ (l.sequence_bits + l.machine_id_bits) % 2 ^ l.timestamp_bits
  unfolding timestamp shr
  timestamp_lem id = rw (timestamp_mask_lem, timestamp_shift_lem l) (bit_and_low _ _)

  pub machine_id_lem : (id : ℕ) → machine_id l id ≡ id / 2 ^ l.sequence_bits % 2 ^ l.machine_id_bits
  unfolding machine_id shr
  machine_id_lem id = rw (machine_id_mask_lem, machine_id_shift_lem l) (bit_and_low _ _)

  pub sequence_lem : (id : ℕ) → sequence l id ≡ id % 2 ^ l.sequence_bits
  unfolding sequence shr sequence_shift
  sequence_lem id =
      rw sequence_mask_lem (bit_and_low _ _ ∙ ap (λ (t : ℕ). t % 2 ^ l.sequence_bits) (omega arith))

  pub valid_mask_lem : valid_mask l ≡ 2 ^ used_bits l - 1
  unfolding valid_mask
  valid_mask_lem =
      rw (timestamp_mask_lem, machine_id_mask_lem, sequence_mask_lem)
        (join_fields _ _ _ (ones_fit _) (ones_fit _) (ones_fit _)
          ∙ rw (packed_ones l.timestamp_bits l.machine_id_bits) (packed_ones _ l.sequence_bits))
    where
      ones_fit : (k : ℕ) → 2 ^ k - 1 < 2 ^ k
      ones_fit k = omega (arith, pow_pos k)

  pub into_valid_lem : (id : ℕ) → into_valid l id ≡ id % 2 ^ used_bits l
  unfolding into_valid
  into_valid_lem id = rw valid_mask_lem (bit_and_low _ _)

  split_bits : l.bits ≡ l.reserved_bits + used_bits l
  split_bits = omega (arith, good.total)

  -- A word is valid exactly when it fits the three fields: no reserved bit is set.
  pub is_valid_iff : (id : ℕ) → id < 2 ^ l.bits → (is_valid l id ≡ true) ↔ (id < 2 ^ used_bits l)
  unfolding is_valid
  is_valid_iff id h = (
    λ v. clear.0 (rw reserved_ones at ((==_iff _ 0).0 v)),
    λ fits. (==_iff _ 0).1 (rw reserved_ones (clear.1 fits)),
  )
    where
      reserved_ones : bit_not l.bits (valid_mask l) ≡ (2 ^ l.reserved_bits - 1) * 2 ^ used_bits l
      reserved_ones = rw valid_mask_lem (
          ap (λ (w : ℕ). bit_not w (2 ^ used_bits l - 1)) split_bits
          ∙ bit_not-ones l.reserved_bits (used_bits l))

      clear :
          (bit_and id ((2 ^ l.reserved_bits - 1) * 2 ^ used_bits l) ≡ 0) ↔ (id < 2 ^ used_bits l)
      clear =
          high_bits_clear l.reserved_bits (used_bits l) id
            (subst (λ (w : ℕ). id < 2 ^ w) split_bits h)
