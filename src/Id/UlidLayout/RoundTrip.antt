-- ===== src/Id/UlidLayout/RoundTrip.antt =====
-- Components and words of a layout, back and forth.
use ferroid.Common.{ℕ, ◌+◌, ◌%◌, ◌≤◌, ◌<◌, ◌≡◌, ◌⊎◌, inl, inr}
use ferroid.Id.Ulid.{IsCanonical}
use ferroid.Id.UlidLayout.Defs.{
  UlidLayout, IsLayout, timestamp_mask, random_mask, from_components, timestamp, random, ulid_id,
}
use ferroid.Id.UlidLayout.Lawful.{ulid_id-IsLawful}

module _ (l : UlidLayout) (good : IsLayout l) where
  -- A timestamp that fits comes back from the word, the random part cut to its field, and no
  -- reserved bit is set; the timestamp and the random part of any valid word rebuild it.
  pub ulid_fields-from_components :
      (t r id : ℕ)
      → t ≤ timestamp_mask l
      → IsCanonical (ulid_id l) id
      → (timestamp l (from_components l t r) ≡ t)
        × (random l (from_components l t r) ≡ r % (random_mask l + 1))
        × IsCanonical (ulid_id l) (from_components l t r)
        × (from_components l (timestamp l id) (random l id) ≡ id)
  ulid_fields-from_components t r id ht c =
      let law = ulid_id-IsLawful l good in
      (law.timestamp_of t r ht, law.random_of t r, law.canonical t r, law.rebuilt id c)

  -- Words order by timestamp first, whatever the random parts are, and then by random part.
  pub ulid_from_components_order :
      (t r t' r' : ℕ)
      → (t < t') ⊎ ((t ≡ t') × (r < r'))
      → t' ≤ timestamp_mask l
      → r' ≤ random_mask l
      → from_components l t r < from_components l t' r'
  ulid_from_components_order t r t' r' (inl lt) ht hr =
      (ulid_id-IsLawful l good).later t r t' r' lt ht
  ulid_from_components_order t r t' r' (inr (et, lt)) ht hr =
      rw et ((ulid_id-IsLawful l good).next t' r r' lt hr)
