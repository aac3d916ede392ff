-- ===== src/Base32/Ulid/Sorted.antt =====
-- The strings of ULIDs, the times that they were made from, and their order.
use mathlib.Core.Path.{subst}
use ferroid.Common.{ℕ, ◌*◌, ◌^◌, ◌≤◌, ◌<◌, ◌≡◌, refl, sym, ap, ◌∙◌, List, ◌++◌, arith}
use ferroid.Id.Ulid.{UlidId, IsCanonical}
use ferroid.Id.UlidLayout.{
  UlidLayout, IsLayout, timestamp_mask, is_valid, ulid_id, ulid_id-IsLawful, SystemTime, since,
  from_datetime, datetime, unix_millis, from_datetime_lem, datetime-from_datetime,
}
use ferroid.Base32.Error.{ok}
use ferroid.Base32.Interface
use ferroid.Base32.Interface.RoundTrip.{decode-encode, bytes_pow}
use ferroid.Base32.Interface.Sorted.{IsBefore, encode-IsBefore}
use ferroid.Base32.Ulid.{
  new, new_ref, as_bytes, as_str, as_string, fmt, ref_as_bytes, ref_as_str, encode, encode_to_buf,
  decode, display, into_string, from_str,
}

module _ (size : ℕ) (o : UlidId) where
  decode-Interface : (s : List ℕ) → decode size o s ≡ Interface.decode size o.is_valid s
  unfolding decode Interface.decode Interface.inner_decode
  decode-Interface s = refl

  encode-Interface : (id : ℕ) → into_string size o id ≡ Interface.encode size id
  unfolding into_string as_string as_bytes encode new Interface.encode
  encode-Interface id = refl

  -- All the ways to write an ID.
  encode_to_buf-display :
      (id : ℕ) (buf written : List ℕ)
      → (display size o id written ≡ written ++ ref_as_str (encode_to_buf size o id buf).0)
        × ((encode_to_buf size o id buf).1 ≡ into_string size o id)
  unfolding into_string as_string as_bytes encode new encode_to_buf new_ref ref_as_str ref_as_bytes
      display fmt as_str
  encode_to_buf-display id buf written = (refl, refl)

module _ (l : UlidLayout) (good : IsLayout l) (size : ℕ) (e : l.bits ≡ size * 8)
    (pos : 1 ≤ size) where
  fits_bytes : (id : ℕ) → id < 2 ^ l.bits → id < 256 ^ size
  fits_bytes id fits = subst (λ n. id < n) (sym (bytes_pow size)) (subst (λ n. id < 2 ^ n) e fits)

  from_str-valid :
      (id : ℕ)
      → IsCanonical (ulid_id l) id
      → from_str size (ulid_id l) (into_string size (ulid_id l) id) ≡ ok id
  unfolding from_str
  from_str-valid id c =
      decode-Interface size (ulid_id l) _
      ∙ ap (Interface.decode size (is_valid l)) (encode-Interface size (ulid_id l) id)
      ∙ decode-encode size (is_valid l) id pos (fits_bytes id c.fits)
      ∙ rw c.valid refl

-- In a layout of whole bytes whose timestamps fit 64 bits, with times that the timestamp field can hold and
-- any random numbers: of the ULIDs of two times in different milliseconds, the string of the earlier comes
-- first in the order of byte strings; `Display` writes what the formatter over a buffer of the caller
-- shows; that buffer holds the string of the ULID, which is read back as the ULID, whose time is the one
-- that it was made from, in whole milliseconds.
pub from_datetime-IsBefore :
    (l : UlidLayout)
    → IsLayout l
    → timestamp_mask l < 2 ^ 64
    → (size : ℕ) → l.bits ≡ size * 8
    → 1 ≤ size
    → (t t' : SystemTime) (rand rand' : ℕ) (buf written : List ℕ) → unix_millis t < unix_millis t'
    → unix_millis t' ≤ timestamp_mask l
    → IsBefore
        (into_string size (ulid_id l) (from_datetime l t rand))
        (into_string size (ulid_id l) (from_datetime l t' rand'))
      × (display size (ulid_id l) (from_datetime l t rand) written
          ≡ written ++ ref_as_str (encode_to_buf size (ulid_id l) (from_datetime l t rand) buf).0)
      × ((encode_to_buf size (ulid_id l) (from_datetime l t rand) buf).1
          ≡ into_string size (ulid_id l) (from_datetime l t rand))
      × (from_str size (ulid_id l) (into_string size (ulid_id l) (from_datetime l t rand))
          ≡ ok (from_datetime l t rand))
      × (datetime l (from_datetime l t rand) ≡ since (unix_millis t * 10 ^ 6))
from_datetime-IsBefore l good narrow size e pos t t' rand rand' buf written earlier fits =
    let law = ulid_id-IsLawful l good in
    let c = law.canonical (unix_millis t) rand in
    let c' = law.canonical (unix_millis t') rand' in
    let made = from_datetime_lem l t rand in
    let shown = encode_to_buf-display size (ulid_id l) (from_datetime l t rand) buf written in
    let valid = subst (λ id. IsCanonical (ulid_id l) id) (sym made) c in
    (
      rw
          (
            encode-Interface size (ulid_id l) (from_datetime l t rand),
            encode-Interface size (ulid_id l) (from_datetime l t' rand'),
            made,
            from_datetime_lem l t' rand',
          )
          (encode-IsBefore size _ _
            (law.later (unix_millis t) rand (unix_millis t') rand' earlier fits)
            (fits_bytes l good size e pos _ c'.fits)),
      shown.0,
      shown.1,
      from_str-valid l good size e pos (from_datetime l t rand) valid,
      (datetime-from_datetime l good narrow t rand (from_datetime l t rand) (omega arith) valid).0,
    )
