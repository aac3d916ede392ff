-- ===== src/Tests/Ids.antt =====
-- The layouts.
use ferroid.Common.{◌≡◌, refl, true}
use ferroid.Id.Snowflake
use ferroid.Id.SnowflakeLayout.{
  twitter, twitter-IsLayout, in_range, from_components, timestamp, machine_id, sequence,
  snowflake_id, snowflake_fields-from_components, timestamp_mask, machine_id_mask, sequence_mask,
}
use ferroid.Common.{shl}

ranges : in_range twitter 5 7 9 ≡ true
unfolding in_range timestamp_mask machine_id_mask sequence_mask shl
ranges = refl

snowflake_fields-from_components_example :
    (timestamp twitter (from_components twitter 5 7 9) ≡ 5)
    × (machine_id twitter (from_components twitter 5 7 9) ≡ 7)
    × (sequence twitter (from_components twitter 5 7 9) ≡ 9)
    × Snowflake.IsCanonical (snowflake_id twitter) (from_components twitter 5 7 9)
snowflake_fields-from_components_example =
    snowflake_fields-from_components twitter twitter-IsLayout 5 7 9 ranges
