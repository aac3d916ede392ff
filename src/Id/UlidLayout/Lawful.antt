-- ===== src/Id/UlidLayout/Lawful.antt =====
-- Every layout meets the laws of `UlidId`.
use native.Mathlib.Nat.{
  mod-lt, mod-mod, mod-eq_of_lt, pow-le-pow_right, div-add-mod', div-lt_iff_lt-mul,
}
use ferroid.Common.{ℕ, ◌+◌, ◌/◌, ◌%◌, ◌^◌, ◌≤◌, ◌<◌, ◌≡◌, arith, ap}
use ferroid.Common.{pow_pos, pow-add, packed-lt, packed_high, packed_low, packed_order}
use ferroid.Id.Ulid.{IsLawful, IsCanonical}
use ferroid.Id.UlidLayout.Defs.{
  UlidLayout, IsLayout, timestamp_mask, random_mask, from_components, timestamp, random, ulid_id,
}
use ferroid.Id.UlidLayout.Fields.{
  ulid_bits, ulid-timestamp_mask, ulid-random_mask, ulid-from_components, ulid-timestamp,
  ulid-random, ulid-is_valid,
}

module _ (l : UlidLayout) (good : IsLayout l) where
  cut : (k x : ℕ) → x % 2 ^ k < 2 ^ k
  cut k x = mod-lt x (pow_pos k)

  timestamp_fits : (t : ℕ) → t ≤ timestamp_mask l → t < 2 ^ l.timestamp_bits
  timestamp_fits t h = omega (arith, pow_pos l.timestamp_bits, ulid-timestamp_mask l good)

  random_cut : (r : ℕ) → r ≤ random_mask l → r < 2 ^ l.random_bits
  random_cut r h = omega (arith, pow_pos l.random_bits, ulid-random_mask l good)

  timestamp-from_components :
      (t r : ℕ) → t ≤ timestamp_mask l → timestamp l (from_components l t r) ≡ t
  timestamp-from_components t r h =
      rw
        (
          ulid-timestamp l good,
          ulid-from_components l good,
          packed_high l.random_bits (t % 2 ^ l.timestamp_bits) _ (cut _ r),
          mod-mod,
        )
        (mod-eq_of_lt (timestamp_fits t h))

  random-from_components : (t r : ℕ) → random l (from_components l t r) ≡ r % (random_mask l + 1)
  random-from_components t r =
      rw
        (
          ulid-random l good,
          ulid-from_components l good,
          packed_low l.random_bits (t % 2 ^ l.timestamp_bits) _ (cut _ r),
        )
        (ap (λ (n : ℕ). r % n) (omega (arith, pow_pos l.random_bits, ulid-random_mask l good)))

  from_components-used : (t r : ℕ) → from_components l t r < 2 ^ ulid_bits l
  from_components-used t r =
      rw (ulid-from_components l good t r)
        (packed-lt l.timestamp_bits l.random_bits _ _ (cut _ t) (cut _ r))

  from_components-IsCanonical : (t r : ℕ) → IsCanonical (ulid_id l) (from_components l t r)
  from_components-IsCanonical t r =
      let within : 2 ^ ulid_bits l ≤ 2 ^ l.bits =
        pow-le-pow_right (omega arith) (omega (arith, good.total)) in
      let fits : from_components l t r < 2 ^ l.bits = omega (arith, from_components-used t r) in
      record { fits = fits; valid = (ulid-is_valid l good _ fits).1 (from_components-used t r) }

  from_components-fields :
      (id : ℕ) → IsCanonical (ulid_id l) id → from_components l (timestamp l id) (random l id) ≡ id
  from_components-fields id c =
      simp (ulid-from_components l good, ulid-timestamp l good, ulid-random l good, mod-mod)
        (rw (mod-eq_of_lt top_fits) (div-add-mod' id _))
    where
      top_fits : id / 2 ^ l.random_bits < 2 ^ l.timestamp_bits
      top_fits = (div-lt_iff_lt-mul (pow_pos _)).1 (
          rw (← pow-add l.timestamp_bits l.random_bits)
            ((ulid-is_valid l good id c.fits).0 c.valid))

  from_components_later :
      (t r t' r' : ℕ)
      → t < t'
      → t' ≤ timestamp_mask l
      → from_components l t r < from_components l t' r'
  from_components_later t r t' r' lt h =
      rw
        (
          ulid-from_components l good t r,
          ulid-from_components l good t' r',
          mod-eq_of_lt (timestamp_fits t' h),
          mod-eq_of_lt (timestamp_fits t (omega arith)),
        )
        (packed_order l.random_bits t t' _ _ (cut _ r) lt)

  from_components_next :
      (t r r' : ℕ) → r < r' → r' ≤ random_mask l → from_components l t r < from_components l t r'
  from_components_next t r r' lt h =
      rw
        (
          ulid-from_components l good t r,
          ulid-from_components l good t r',
          mod-eq_of_lt (random_cut r' h),
          mod-eq_of_lt (random_cut r (omega arith)),
        )
        (omega arith)

  -- What the macro defines is a lawful `UlidId`: components that fit come back, a random number is cut
  -- to its field, IDs have no reserved bit set, and order first by timestamp and then by random part.
  pub ulid_id-IsLawful : IsLawful (ulid_id l)
  ulid_id-IsLawful = record {
    timestamp_le = λ id.
        rw (ulid-timestamp l good id) (
          omega (arith, ulid-timestamp_mask l good, cut l.timestamp_bits (id / 2 ^ l.random_bits)));
    random_le = λ id.
        rw (ulid-random l good id) (omega (arith, ulid-random_mask l good, cut l.random_bits id));
    random_fits = omega (
      arith,
      ulid-random_mask l good,
      pow_pos l.random_bits,
      pow-le-pow_right {n = 2} (omega arith) {i = l.random_bits} {j = l.bits}
          (omega (arith, good.total)),
    );
    timestamp_of = timestamp-from_components;
    random_of = random-from_components;
    canonical = from_components-IsCanonical;
    rebuilt = from_components-fields;
    later = from_components_later;
    next = from_components_next;
  }
