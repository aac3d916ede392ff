-- ===== src/Id/SnowflakeLayout/RoundTrip.antt =====
-- Components and words of a layout, back and forth.
use native.Mathlib.Nat.{mod-lt, mod-eq_of_lt}
use ferroid.Common.{ℕ, ◌^◌, ◌≤◌, ◌<◌, ◌≡◌, ◌⊎◌, ◌↔◌, inl, inr, ◌∙◌, arith, true, pow_pos}
use mathlib.Core.Path.{subst}
use ferroid.Id.Snowflake.{IsCanonical}
use ferroid.Id.SnowflakeLayout.Defs.{
  SnowflakeLayout, IsLayout, timestamp_mask, sequence_mask, from_components, timestamp, machine_id,
  sequence, is_valid, into_valid, snowflake_id, in_range,
}
use ferroid.Id.SnowflakeLayout.Fields.{used_bits, is_valid_iff, into_valid_lem}
use ferroid.Id.SnowflakeLayout.Lawful.{snowflake_id-IsLawful, used-le}

module _ (l : SnowflakeLayout) (good : IsLayout l) where
  -- Components that pass the debug assertions come back from the word unchanged, and no reserved
  -- bit of the word is set.
  pub snowflake_fields-from_components :
      (t m s : ℕ)
      → in_range l t m s ≡ true
      → (timestamp l (from_components l t m s) ≡ t)
        × (machine_id l (from_components l t m s) ≡ m)
        × (sequence l (from_components l t m s) ≡ s)
        × IsCanonical (snowflake_id l) (from_components l t m s)
  unfolding in_range
  snowflake_fields-from_components t m s h =
      let law = snowflake_id-IsLawful l good in
      (
        law.timestamp_of t m s (ground arith),
        law.machine_id_of t m s (ground arith),
        law.sequence_of t m s (ground arith),
        law.canonical t m s,
      )

  -- A valid word is rebuilt from its three components.
  pub snowflake_from_components-fields :
      (id : ℕ)
      → IsCanonical (snowflake_id l) id
      → from_components l (timestamp l id) (machine_id l id) (sequence l id) ≡ id
  snowflake_from_components-fields id c = (snowflake_id-IsLawful l good).rebuilt id c

  -- Words order by timestamp first, whatever the other components are, and for one timestamp and
  -- machine by sequence number.
  pub from_components_order :
      (t m s t' m' s' : ℕ)
      → (t < t') ⊎ ((t ≡ t') × (m ≡ m') × (s < s'))
      → t' ≤ timestamp_mask l
      → s' ≤ sequence_mask l
      → from_components l t m s < from_components l t' m' s'
  from_components_order t m s t' m' s' (inl lt) ht hs =
      (snowflake_id-IsLawful l good).later t m s t' m' s' lt ht
  from_components_order t m s t' m' s' (inr (et, em, lt)) ht hs =
      rw (et, em) ((snowflake_id-IsLawful l good).next t' m' s s' lt hs)

  -- `into_valid` makes every word valid, and leaves exactly the valid ones unchanged.
  pub into_valid-is_valid :
      (id : ℕ)
      → id < 2 ^ l.bits
      → (is_valid l (into_valid l id) ≡ true) × ((into_valid l id ≡ id) ↔ (is_valid l id ≡ true))
  into_valid-is_valid id h = (
    (is_valid_iff l good _ (omega (arith, used-le l good, cleared))).1 cleared,
    (
      λ e. (is_valid_iff l good id h).1 (subst (λ x. x < 2 ^ used_bits l) e cleared),
      λ v. into_valid_lem l good id ∙ mod-eq_of_lt ((is_valid_iff l good id h).0 v),
    ),
  )
    where
      cleared : into_valid l id < 2 ^ used_bits l
      cleared = rw (into_valid_lem l good id) (mod-lt id (pow_pos _))
