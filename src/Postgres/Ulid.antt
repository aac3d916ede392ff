-- ===== src/Postgres/Ulid.antt =====
-- The column type `ULID` of crates/pg-ferroid/src/lib.rs: sixteen bytes, most significant first.
use ferroid.Common.{ℕ, ◌*◌, ◌^◌, ◌<◌, ◌≡◌, ap, sym, ◌∙◌, arith, List, [], ◌∷◌, length, All}
use mathlib.Core.Path.{subst}
use ferroid.Common.{compare_cases, cmp_bytes, lt_compare, gt_compare, inl, inr}
use ferroid.Common.{compare, Ordering, ◌+◌}
use ferroid.Base32.Crockford.Digits.{
  to_be_bytes, from_be_bytes, value, to_be_bytes-lt, length-to_be_bytes, value-to_be_bytes,
  value-lt, to_be_bytes-value,
}
use ferroid.Id.UlidLayout.{
  ulid, timestamp, from_components, ulid-IsLayout, ulid_id-IsLawful, ulid-timestamp_mask,
}

-- `SIZE`
abbrev pub ulid_size : ℕ
ulid_size = 16

pub record Ulid : Type 0 where
  pub bytes : List ℕ

-- The type of `bytes` is `[u8; 16]`.
pub record IsUlid (u : Ulid) : Type 0 where
  pub size : length u.bytes ≡ ulid_size
  pub are_bytes : All (λ b. b < 256) u.bytes

unfoldable pub from_bytes : List ℕ → Ulid
from_bytes bytes = record { bytes = bytes }

unfoldable pub as_bytes : Ulid → List ℕ
as_bytes u = u.bytes

-- The raw word of the ID in the other crate.
unfoldable pub to_inner : Ulid → ℕ
to_inner u = from_be_bytes u.bytes

unfoldable pub from_inner : ℕ → Ulid
unfolding from_bytes
from_inner id = from_bytes (to_be_bytes ulid_size id)

unfoldable pub timestamp_of : Ulid → ℕ
unfolding to_inner
timestamp_of u = timestamp ulid (to_inner u)

-- The derived order.
unfoldable pub cmp : Ulid → Ulid → Ordering
unfolding cmp_bytes
cmp u v = cmp_bytes u.bytes v.bytes

pub from_inner-IsUlid : (id : ℕ) → IsUlid (from_inner id)
unfolding from_inner from_bytes
from_inner-IsUlid id = record {
  size = length-to_be_bytes ulid_size id;
  are_bytes = to_be_bytes-lt ulid_size id;
}

pub to_inner-lt : (u : Ulid) → IsUlid u → to_inner u < 256 ^ ulid_size
unfolding to_inner
to_inner-lt u h =
    subst (λ n. value 256 0 u.bytes < 256 ^ n) h.size
      (omega (arith, value-lt u.bytes 0 h.are_bytes))

pub to_inner-from_inner : (id : ℕ) → id < 256 ^ ulid_size → to_inner (from_inner id) ≡ id
unfolding to_inner from_inner from_bytes
to_inner-from_inner id h = value-to_be_bytes ulid_size id h

pub from_inner-to_inner : (u : Ulid) → IsUlid u → from_inner (to_inner u) ≡ u
unfolding to_inner from_inner from_bytes
from_inner-to_inner u h =
    ap (λ bytes. record { bytes = bytes })
      (subst (λ n. to_be_bytes n (from_be_bytes u.bytes) ≡ u.bytes) h.size
        (to_be_bytes-value u.bytes h.are_bytes))

value_mono :
    (a b : ℕ) (ds es : List ℕ)
    → a < b
    → All (λ d. d < 256) ds
    → All (λ d. d < 256) es
    → length ds ≡ length es
    → value 256 a ds < value 256 b es
unfolding value
value_mono a b [] [] lt hd he len = lt
value_mono a b [] (e ∷ es) lt hd he len = absurd (omega arith)
value_mono a b (d ∷ ds) [] lt hd he len = absurd (omega arith)
value_mono a b (d ∷ ds) (e ∷ es) lt (hd, hds) (he, hes) len =
    value_mono (a * 256 + d) (b * 256 + e) ds es (omega arith) hds hes (omega arith)

cmp_bytes-value :
    (a : ℕ) (ds es : List ℕ)
    → All (λ d. d < 256) ds
    → All (λ d. d < 256) es
    → length ds ≡ length es
    → cmp_bytes ds es ≡ compare (value 256 a ds) (value 256 a es)
unfolding value cmp_bytes
cmp_bytes-value a [] [] hd he len = ground arith
cmp_bytes-value a [] (e ∷ es) hd he len = absurd (omega arith)
cmp_bytes-value a (d ∷ ds) [] hd he len = absurd (omega arith)
cmp_bytes-value a (d ∷ ds) (e ∷ es) (hd, hds) (he, hes) len = elim (compare_cases d e) [
  | inl (c, lt) ↦
      rw (c, cmp_bytes)
        (sym (
          lt_compare _ _
            (value_mono (a * 256 + d) (a * 256 + e) ds es (omega arith) hds hes (omega arith))))
  | inr (inl (c, same)) ↦
      rw (c, cmp_bytes, same) (cmp_bytes-value (a * 256 + e) ds es hds hes (omega arith))
  | inr (inr (c, gt)) ↦
      rw (c, cmp_bytes)
        (sym (
          gt_compare _ _
            (value_mono (a * 256 + e) (a * 256 + d) es ds (omega arith) hes hds (omega arith))))
]

-- The order of the column type, which its indexes use, is the order of the numbers that the IDs are.
pub cmp-to_inner : (u v : Ulid) → IsUlid u → IsUlid v → cmp u v ≡ compare (to_inner u) (to_inner v)
unfolding cmp to_inner
cmp-to_inner u v hu hv =
    cmp_bytes-value 0 u.bytes v.bytes hu.are_bytes hv.are_bytes (hu.size ∙ sym hv.size)

pub timestamp-from_inner :
    (ms rand : ℕ) → ms < 2 ^ 48 → timestamp_of (from_inner (from_components ulid ms rand)) ≡ ms
unfolding timestamp_of
timestamp-from_inner ms rand h =
    let law = ulid_id-IsLawful ulid ulid-IsLayout in
    rw (to_inner-from_inner (from_components ulid ms rand) (law.canonical ms rand).fits)
      (law.timestamp_of ms rand (omega (arith, ulid-timestamp_mask ulid ulid-IsLayout)))
