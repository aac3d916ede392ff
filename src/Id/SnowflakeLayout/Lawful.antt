-- ===== src/Id/SnowflakeLayout/Lawful.antt =====
-- Every layout meets the laws of `SnowflakeId`.
use native.Mathlib.Nat.{mod-lt, mod-mod, mod-eq_of_lt, div-div-eq-div-mul, pow-le-pow_right}
use native.Mathlib.Nat.{div-add-mod', div-lt_iff_lt-mul}
use ferroid.Common.{ℕ, ◌+◌, ◌-◌, ◌*◌, ◌/◌, ◌%◌, ◌^◌, ◌≤◌, ◌<◌, ◌≡◌, sym, arith}
use ferroid.Common.{pow_pos, pow-add, packed-lt, packed_high, packed_low, packed_order}
use ferroid.Id.Snowflake.{IsLawful, IsCanonical}
use ferroid.Id.SnowflakeLayout.Defs.{
  SnowflakeLayout, IsLayout, timestamp_mask, machine_id_mask, sequence_mask, from_components,
  timestamp, machine_id, sequence, snowflake_id,
}
use ferroid.Id.SnowflakeLayout.Fields.{
  used_bits, packed, timestamp_mask_lem, machine_id_mask_lem, sequence_mask_lem,
  from_components_lem, timestamp_lem, machine_id_lem, sequence_lem, is_valid_iff,
}

-- Dividing by the two lower widths at once, or by one after the other.
two_shifts : (x j k : ℕ) → x / 2 ^ (k + j) ≡ x / 2 ^ k / 2 ^ j
two_shifts x j k = rw (pow-add k j) (sym (div-div-eq-div-mul x (2 ^ k) (2 ^ j)))

module _ (l : SnowflakeLayout) where
  packed-used :
      (t m s : ℕ)
      → t < 2 ^ l.timestamp_bits
      → m < 2 ^ l.machine_id_bits
      → s < 2 ^ l.sequence_bits
      → packed l t m s < 2 ^ used_bits l
  packed-used t m s ht hm hs =
      packed-lt _ l.sequence_bits _ s (packed-lt l.timestamp_bits l.machine_id_bits t m ht hm) hs

  packed_timestamp :
      (t m s : ℕ)
      → m < 2 ^ l.machine_id_bits
      → s < 2 ^ l.sequence_bits
      → packed l t m s / 2 ^ (l.sequence_bits + l.machine_id_bits) ≡ t
  packed_timestamp t m s hm hs =
      rw
        (
          two_shifts (packed l t m s) l.machine_id_bits l.sequence_bits,
          packed_high l.sequence_bits (t * 2 ^ l.machine_id_bits + m) s hs,
        )
        (packed_high l.machine_id_bits t m hm)

  packed_fields :
      (id : ℕ)
      → packed l
          (id / 2 ^ (l.sequence_bits + l.machine_id_bits))
          (id / 2 ^ l.sequence_bits % 2 ^ l.machine_id_bits)
          (id % 2 ^ l.sequence_bits)
        ≡ id
  packed_fields id =
      rw
        (
          two_shifts id l.machine_id_bits l.sequence_bits,
          div-add-mod' (id / 2 ^ l.sequence_bits) (2 ^ l.machine_id_bits),
        )
        (div-add-mod' id _)

module _ (l : SnowflakeLayout) (good : IsLayout l) where
  below_mask : (k x m : ℕ) → m ≡ 2 ^ k - 1 → x ≤ m → x < 2 ^ k
  below_mask k x m e h = omega (arith, pow_pos k)

  within_mask : (k x m : ℕ) → m ≡ 2 ^ k - 1 → x % 2 ^ k ≤ m
  within_mask k x m e = omega (arith, mod-lt x (pow_pos k))

  timestamp_fits : (t : ℕ) → t ≤ timestamp_mask l → t < 2 ^ l.timestamp_bits
  timestamp_fits t h = below_mask l.timestamp_bits t _ (timestamp_mask_lem l good) h

  machine_id_fits : (m : ℕ) → m ≤ machine_id_mask l → m < 2 ^ l.machine_id_bits
  machine_id_fits m h = below_mask l.machine_id_bits m _ (machine_id_mask_lem l good) h

  sequence_cut : (s : ℕ) → s ≤ sequence_mask l → s < 2 ^ l.sequence_bits
  sequence_cut s h = below_mask l.sequence_bits s _ (sequence_mask_lem l good) h

  cut : (k x : ℕ) → x % 2 ^ k < 2 ^ k
  cut k x = mod-lt x (pow_pos k)

  timestamp-from_components :
      (t m s : ℕ) → t ≤ timestamp_mask l → timestamp l (from_components l t m s) ≡ t
  timestamp-from_components t m s h =
      rw
        (
          timestamp_lem l good,
          from_components_lem l good,
          packed_timestamp l (t % 2 ^ l.timestamp_bits) _ _ (cut _ m) (cut _ s),
          mod-mod,
        )
        (mod-eq_of_lt (timestamp_fits t h))

  machine_id-from_components :
      (t m s : ℕ) → m ≤ machine_id_mask l → machine_id l (from_components l t m s) ≡ m
  machine_id-from_components t m s h =
      rw
        (
          machine_id_lem l good,
          from_components_lem l good,
          packed_high l.sequence_bits
              (t % 2 ^ l.timestamp_bits * 2 ^ l.machine_id_bits + m % 2 ^ l.machine_id_bits) _
              (cut _ s),
          packed_low l.machine_id_bits (t % 2 ^ l.timestamp_bits) _ (cut _ m),
        )
        (mod-eq_of_lt (machine_id_fits m h))

  sequence-from_components :
      (t m s : ℕ) → s ≤ sequence_mask l → sequence l (from_components l t m s) ≡ s
  sequence-from_components t m s h =
      rw
        (
          sequence_lem l good,
          from_components_lem l good,
          packed_low l.sequence_bits
              (t % 2 ^ l.timestamp_bits * 2 ^ l.machine_id_bits + m % 2 ^ l.machine_id_bits) _
              (cut _ s),
        )
        (mod-eq_of_lt (sequence_cut s h))

  from_components-used : (t m s : ℕ) → from_components l t m s < 2 ^ used_bits l
  from_components-used t m s =
      rw (from_components_lem l good t m s) (packed-used l _ _ _ (cut _ t) (cut _ m) (cut _ s))

  pub used-le : 2 ^ used_bits l ≤ 2 ^ l.bits
  used-le = pow-le-pow_right (omega arith) (omega (arith, good.total))

  from_components-IsCanonical : (t m s : ℕ) → IsCanonical (snowflake_id l) (from_components l t m s)
  from_components-IsCanonical t m s =
      let fits : from_components l t m s < 2 ^ l.bits =
        omega (arith, used-le, from_components-used t m s) in
      record { fits = fits; valid = (is_valid_iff l good _ fits).1 (from_components-used t m s) }

  from_components-fields :
      (id : ℕ)
      → IsCanonical (snowflake_id l) id
      → from_components l (timestamp l id) (machine_id l id) (sequence l id) ≡ id
  from_components-fields id c =
      simp
        (
          from_components_lem l good,
          timestamp_lem l good,
          machine_id_lem l good,
          sequence_lem l good,
          mod-mod,
        )
        (rw (mod-eq_of_lt top_fits) (packed_fields l id))
    where
      regrouped : l.timestamp_bits + (l.sequence_bits + l.machine_id_bits) ≡ used_bits l
      regrouped = omega arith

      top_fits : id / 2 ^ (l.sequence_bits + l.machine_id_bits) < 2 ^ l.timestamp_bits
      top_fits = (div-lt_iff_lt-mul (pow_pos _)).1 (
          rw (← pow-add l.timestamp_bits (l.sequence_bits + l.machine_id_bits), regrouped)
            ((is_valid_iff l good id c.fits).0 c.valid))

  from_components_later :
      (t m s t' m' s' : ℕ)
      → t < t'
      → t' ≤ timestamp_mask l
      → from_components l t m s < from_components l t' m' s'
  from_components_later t m s t' m' s' lt h =
      rw
        (
          from_components_lem l good t m s,
          from_components_lem l good t' m' s',
          mod-eq_of_lt (timestamp_fits t' h),
          mod-eq_of_lt (timestamp_fits t (omega arith)),
        )
        (packed_order l.sequence_bits _ _ _ _ (cut _ s)
          (packed_order l.machine_id_bits t t' _ _ (cut _ m) lt))

  from_components_next :
      (t m s s' : ℕ)
      → s < s'
      → s' ≤ sequence_mask l
      → from_components l t m s < from_components l t m s'
  from_components_next t m s s' lt h =
      rw
        (
          from_components_lem l good t m s,
          from_components_lem l good t m s',
          mod-eq_of_lt (sequence_cut s' h),
          mod-eq_of_lt (sequence_cut s (omega arith)),
        )
        (omega arith)

  -- What the macro defines is a lawful `SnowflakeId`.
  pub snowflake_id-IsLawful : IsLawful (snowflake_id l)
  snowflake_id-IsLawful = record {
    timestamp_le =
        λ id. rw (timestamp_lem l good id) (within_mask _ _ _ (timestamp_mask_lem l good));
    machine_id_le =
        λ id. rw (machine_id_lem l good id) (within_mask _ _ _ (machine_id_mask_lem l good));
    sequence_le = λ id. rw (sequence_lem l good id) (within_mask _ _ _ (sequence_mask_lem l good));
    sequence_fits = omega (
      arith,
      sequence_mask_lem l good,
      pow_pos l.sequence_bits,
      pow-le-pow_right {n = 2} (omega arith) {i = l.sequence_bits} {j = l.bits}
          (omega (arith, good.total)),
    );
    timestamp_of = timestamp-from_components;
    machine_id_of = machine_id-from_components;
    sequence_of = sequence-from_components;
    canonical = from_components-IsCanonical;
    rebuilt = from_components-fields;
    later = from_components_later;
    next = from_components_next;
  }
