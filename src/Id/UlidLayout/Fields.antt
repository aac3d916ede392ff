-- ===== src/Id/UlidLayout/Fields.antt =====
-- The packed word as arithmetic: the bit operations of a layout restated by `*`, `/` and `%`.
use mathlib.Core.Path.{subst}
use native.Mathlib.Nat.{mod-lt}
use ferroid.Common.{ℕ, ◌+◌, ◌-◌, ◌*◌, ◌/◌, ◌%◌, ◌^◌, ◌<◌, ◌≡◌, ap, ◌∙◌, arith}
use ferroid.Common.{bit_and, bit_or, bit_not, shl, shr, bit_and_low, pow_pos, shl_one}
use ferroid.Common.{join_two, packed_ones, bit_not-ones, high_bits_clear, true, ◌↔◌, ==_iff}
use ferroid.Id.UlidLayout.Defs.{
  UlidLayout, IsLayout, timestamp_mask, random_mask, valid_mask, from_components, timestamp, random,
  random_shift, timestamp_shift, into_valid, is_valid,
}

module _ (l : UlidLayout) where
  abbrev pub ulid_bits : ℕ
  ulid_bits = l.timestamp_bits + l.random_bits

  -- The word that holds two fields, each of which fits its width.
  abbrev pub ulid_packed : ℕ → ℕ → ℕ
  ulid_packed t r = t * 2 ^ l.random_bits + r

  ulid_timestamp_shift : timestamp_shift l ≡ l.random_bits
  unfolding timestamp_shift random_shift
  ulid_timestamp_shift = omega arith

module _ (l : UlidLayout) (good : IsLayout l) where
  pub ulid-timestamp_mask : timestamp_mask l ≡ 2 ^ l.timestamp_bits - 1
  unfolding timestamp_mask
  ulid-timestamp_mask = rw (shl_one l.bits l.timestamp_bits good.timestamp_narrow)

  pub ulid-random_mask : random_mask l ≡ 2 ^ l.random_bits - 1
  unfolding random_mask
  ulid-random_mask = rw (shl_one l.bits l.random_bits good.random_narrow)

  ulid_join_fields :
      (t r : ℕ)
      → t < 2 ^ l.timestamp_bits
      → r < 2 ^ l.random_bits
      → bit_or (shl l.bits t (timestamp_shift l)) (shl l.bits r (random_shift l))
        ≡ ulid_packed l t r
  unfolding random_shift
  ulid_join_fields t r ht hr =
      rw (ulid_timestamp_shift l)
        (join_two l.bits l.timestamp_bits l.random_bits t r ht hr (omega (arith, good.total)))

  -- The constructor cuts each component to its width and packs the two.
  pub ulid-from_components :
      (t r : ℕ)
      → from_components l t r ≡ ulid_packed l (t % 2 ^ l.timestamp_bits) (r % 2 ^ l.random_bits)
  unfolding from_components
  ulid-from_components t r =
      simp (ulid-timestamp_mask, ulid-random_mask, bit_and_low)
        (ulid_join_fields _ _ (mod-lt t (pow_pos _)) (mod-lt r (pow_pos _)))

  pub ulid-timestamp : (id : ℕ) → timestamp l id ≡ id / 2 ^ l.random_bits % 2 ^ l.timestamp_bits
  unfolding timestamp shr
  ulid-timestamp id = rw (ulid-timestamp_mask, ulid_timestamp_shift l) (bit_and_low _ _)

  pub ulid-random : (id : ℕ) → random l id ≡ id % 2 ^ l.random_bits
  unfolding random shr random_shift
  ulid-random id =
      rw ulid-random_mask (bit_and_low _ _ ∙ ap (λ (t : ℕ). t % 2 ^ l.random_bits) (omega arith))

  pub ulid-valid_mask : valid_mask l ≡ 2 ^ ulid_bits l - 1
  unfolding valid_mask
  ulid-valid_mask =
      rw (ulid-timestamp_mask, ulid-random_mask)
        (ulid_join_fields _ _ (ones_fit _) (ones_fit _)
          ∙ packed_ones l.timestamp_bits l.random_bits)
    where
      ones_fit : (k : ℕ) → 2 ^ k - 1 < 2 ^ k
      ones_fit k = omega (arith, pow_pos k)

  -- `into_valid` keeps the bits of the two fields and clears the others.
  pub ulid-into_valid : (id : ℕ) → into_valid l id ≡ id % 2 ^ ulid_bits l
  unfolding into_valid
  ulid-into_valid id = rw ulid-valid_mask (bit_and_low _ _)

  ulid_split_bits : l.bits ≡ l.reserved_bits + ulid_bits l
  ulid_split_bits = omega (arith, good.total)

  -- A word is valid exactly when it fits the two fields: no reserved bit is set.
  pub ulid-is_valid : (id : ℕ) → id < 2 ^ l.bits → (is_valid l id ≡ true) ↔ (id < 2 ^ ulid_bits l)
  unfolding is_valid
  ulid-is_valid id h = (
    λ v. clear.0 (rw reserved_ones at ((==_iff _ 0).0 v)),
    λ fits. (==_iff _ 0).1 (rw reserved_ones (clear.1 fits)),
  )
    where
      reserved_ones : bit_not l.bits (valid_mask l) ≡ (2 ^ l.reserved_bits - 1) * 2 ^ ulid_bits l
      reserved_ones = rw ulid-valid_mask (
          ap (λ (w : ℕ). bit_not w (2 ^ ulid_bits l - 1)) ulid_split_bits
          ∙ bit_not-ones l.reserved_bits (ulid_bits l))

      clear :
          (bit_and id ((2 ^ l.reserved_bits - 1) * 2 ^ ulid_bits l) ≡ 0) ↔ (id < 2 ^ ulid_bits l)
      clear =
          high_bits_clear l.reserved_bits (ulid_bits l) id
            (subst (λ (w : ℕ). id < 2 ^ w) ulid_split_bits h)
