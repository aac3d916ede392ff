-- ===== src/Tests/Times.antt =====
-- ULIDs of times, and their strings.
use ferroid.Common.{◌+◌, ◌%◌, ◌^◌, ◌<◌, ◌≡◌, refl, arith, [], ◌∷◌, ◌++◌}
use ferroid.Id.UlidLayout.{
  ulid, ulid-IsLayout, ulid_id-IsLawful, timestamp_mask, ulid-timestamp_mask, random,
  from_components, since, before, from_datetime, datetime, datetime-from_datetime,
}
use ferroid.Base32.Error.{ok}
use ferroid.Base32.Interface.Sorted.{IsBefore}
use ferroid.Base32.Ulid.{ref_as_str, encode_to_buf, display, into_string, from_str}
use ferroid.Base32.Ulid.Sorted.{from_datetime-IsBefore}
use ferroid.Tests.Ulids.{ids}

narrow : timestamp_mask ulid < 2 ^ 64
narrow = omega (arith, ulid-timestamp_mask ulid ulid-IsLayout)

-- A nanosecond before the epoch, and the ULID 42 of the millisecond 7.
datetime-from_datetime_example :
    (datetime ulid (from_datetime ulid (before 1) 5) ≡ since 0)
    × (random ulid (from_datetime ulid (before 1) 5) ≡ 5 % (ids.max_random + 1))
    × (from_datetime ulid
          (datetime ulid (from_components ulid 7 42))
          (random ulid (from_components ulid 7 42))
        ≡ from_components ulid 7 42)
datetime-from_datetime_example =
    datetime-from_datetime ulid ulid-IsLayout narrow (before 1) 5 (from_components ulid 7 42)
      (omega arith) ((ulid_id-IsLawful ulid ulid-IsLayout).canonical 7 42)

-- Times of 1.9 and 2 milliseconds.
from_datetime-IsBefore_example :
    IsBefore
      (into_string 16 ids (from_datetime ulid (since 1900000) 9))
      (into_string 16 ids (from_datetime ulid (since 2000000) 3))
    × (display 16 ids (from_datetime ulid (since 1900000) 9) (b'#' ∷ [])
        ≡ b'#' ∷ []
          ++ ref_as_str (encode_to_buf 16 ids (from_datetime ulid (since 1900000) 9) []).0)
    × ((encode_to_buf 16 ids (from_datetime ulid (since 1900000) 9) []).1
        ≡ into_string 16 ids (from_datetime ulid (since 1900000) 9))
    × (from_str 16 ids (into_string 16 ids (from_datetime ulid (since 1900000) 9))
        ≡ ok (from_datetime ulid (since 1900000) 9))
    × (datetime ulid (from_datetime ulid (since 1900000) 9) ≡ since 1000000)
from_datetime-IsBefore_example =
    from_datetime-IsBefore ulid ulid-IsLayout narrow 16 refl (omega arith) (since 1900000)
      (since 2000000) 9 3 [] (b'#' ∷ []) (omega arith)
      (omega (arith, ulid-timestamp_mask ulid ulid-IsLayout))
