-- ===== src/Postgres/Forms.antt =====
-- A ULID of the column type in its other forms: text, `bytea` and the binary protocol.
use mathlib.Core.Path.{subst}
use mathlib.Core.List.{append-nil}
use ferroid.Common.{
  ℕ, ◌^◌, ◌<◌, ◌≡◌, ◌∙◌, refl, ap, sym, arith, true, List, [], length, some, compare, Ordering,
  ==_iff,
}
use ferroid.Id.UlidLayout.{ulid, ulid-IsLayout, ulid-is_valid, is_valid}
use ferroid.Base32.Error.{ok}
use ferroid.Base32.Interface.{encode, decode}
use ferroid.Base32.Interface.RoundTrip.{decode-encode}
use ferroid.Base32.Interface.Sorted.{IsBefore, encode-IsBefore}
use ferroid.Postgres.Ulid.{
  Ulid, IsUlid, ulid_size, from_bytes, as_bytes, cmp, cmp-to_inner, from_inner, to_inner,
  to_inner-lt, from_inner-to_inner,
}
use ferroid.Postgres.Sql.{
  returned, Messages, IsMessages, from_decoded, ulid_in, ulid_out, text_to_ulid, ulid_to_text,
  ulid_is_valid, bytea_to_ulid, ulid_to_bytea, ulid_send, ulid_recv,
}

-- A ULID has no reserved bits.
valid_word : (x : ℕ) → x < 256 ^ ulid_size → is_valid ulid x ≡ true
valid_word x h = (ulid-is_valid ulid ulid-IsLayout x (omega arith)).1 (omega arith)

decoded_text :
    (u : Ulid)
    → IsUlid u
    → decode ulid_size (is_valid ulid) (encode ulid_size (to_inner u)) ≡ ok (to_inner u)
decoded_text u h =
    decode-encode ulid_size (is_valid ulid) (to_inner u) (omega arith) (to_inner-lt u h)
    ∙ rw (valid_word (to_inner u) (to_inner-lt u h)) refl

ulid_in_text : (u : Ulid) → IsUlid u → ulid_in (ulid_out u) ≡ returned u
unfolding ulid_in ulid_out from_decoded
ulid_in_text u h = rw (decoded_text u h, from_decoded) (ap returned (from_inner-to_inner u h))

text_to_ulid_text : (u : Ulid) → IsUlid u → text_to_ulid (ulid_to_text u) ≡ returned u
unfolding text_to_ulid from_decoded ulid_to_text
text_to_ulid_text u h = rw (decoded_text u h, from_decoded) (ap returned (from_inner-to_inner u h))

bytea_to_ulid_bytes : (u : Ulid) → IsUlid u → bytea_to_ulid (ulid_to_bytea u) ≡ returned u
unfolding bytea_to_ulid ulid_to_bytea as_bytes from_bytes
bytea_to_ulid_bytes u h = rw ((==_iff _ _).1 h.size) refl

module _ (m : Messages) (works : IsMessages m) where
  whole_message : (u : Ulid) → IsUlid u → m.pq_getmsgbytes u.bytes ulid_size ≡ some (u.bytes, [])
  whole_message u h =
      subst (λ n. m.pq_getmsgbytes u.bytes n ≡ some (u.bytes, [])) h.size
        (subst (λ (bs : List ℕ). m.pq_getmsgbytes bs (length u.bytes) ≡ some (u.bytes, []))
          (append-nil u.bytes) (works.takes u.bytes []))

  ulid_recv_sent : (u : Ulid) → IsUlid u → ulid_recv m (some (ulid_send u)) ≡ returned u
  unfolding ulid_recv ulid_send ulid_to_bytea as_bytes from_bytes
  ulid_recv_sent u h = rw (whole_message u h, works.ends) refl

valid_text : (u : Ulid) → IsUlid u → ulid_is_valid (ulid_out u) ≡ true
unfolding ulid_is_valid ulid_out
valid_text u h = rw (decoded_text u h, ulid_is_valid) refl

-- A ULID is read back from each of its forms: the text of `ulid_out` and of the cast to text, the
-- bytes of the cast to `bytea`, and the message that `ulid_send` writes; and its text is a valid one.
pub ulid_in-ulid_out :
    (m : Messages) (u : Ulid)
    → IsMessages m
    → IsUlid u
    → (ulid_in (ulid_out u) ≡ returned u)
      × (text_to_ulid (ulid_to_text u) ≡ returned u)
      × (bytea_to_ulid (ulid_to_bytea u) ≡ returned u)
      × (ulid_recv m (some (ulid_send u)) ≡ returned u)
      × (ulid_is_valid (ulid_out u) ≡ true)
ulid_in-ulid_out m u works h = (
  ulid_in_text u h,
  text_to_ulid_text u h,
  bytea_to_ulid_bytes u h,
  ulid_recv_sent m works u h,
  valid_text u h,
)

-- The derived order of two ULIDs is that of their numbers, the lower number has the text that comes
-- first in the order of byte strings, and ULIDs that compare equal are the same.
pub cmp-ulid_out :
    (u v : Ulid)
    → IsUlid u
    → IsUlid v
    → (cmp u v ≡ compare (to_inner u) (to_inner v))
      × (cmp u v ≡ Ordering.lt → IsBefore (ulid_out u) (ulid_out v))
      × (cmp u v ≡ Ordering.eq → u ≡ v)
unfolding ulid_out
cmp-ulid_out u v hu hv = (
  cmp-to_inner u v hu hv,
  λ lt.
      encode-IsBefore ulid_size (to_inner u) (to_inner v) (ground (arith, cmp-to_inner u v hu hv))
        (to_inner-lt v hv),
  λ same.
      sym (from_inner-to_inner u hu)
      ∙ ap from_inner (ground (arith, cmp-to_inner u v hu hv))
      ∙ from_inner-to_inner v hv,
)
