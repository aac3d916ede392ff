-- ===== src/Postgres/Gen.antt =====
-- `gen_ulid` and `gen_ulid_mono` of crates/pg-ferroid/src/lib.rs, on the generators of the thread.
use ferroid.Common.{
  ℕ, ◌^◌, ◌≤◌, ◌<◌, ◌≡◌, refl, ◌∙◌, arith, List, ◌∷◌, ◌++◌, All, All-mono, Option, none, some,
  Ordering, lt_compare,
}
use ferroid.Id.Ulid.{IsCanonical}
use ferroid.Id.UlidLayout.{
  ulid, ulid_id, ulid-IsLayout, ulid_id-IsLawful, from_components, ulid-timestamp_mask,
}
use ferroid.Generator.Ulid.Basic
use ferroid.Generator.Ulid.BasicMono.{Reading}
use ferroid.Generator.Ulid.ThreadLocal.{
  generated, unreachable, new_ulid, new_ulid_mono, mono_next_total,
}
use ferroid.Postgres.Ulid.{
  Ulid, from_inner, to_inner, timestamp_of, cmp, cmp-to_inner, from_inner-IsUlid,
  to_inner-from_inner, timestamp-from_inner,
}
use ferroid.Postgres.Sql.{Outcome, returned, crashed}

unfoldable pub gen_ulid : Reading → Outcome Ulid
gen_ulid r = elim (new_ulid r) [ generated id ↦ returned (from_inner id) | unreachable ↦ crashed ]

-- With the new state of the thread's generator; `none` if the readings do not suffice.
unfoldable pub gen_ulid_mono : List Reading → ℕ → Option (Ulid × ℕ)
gen_ulid_mono readings state = elim (new_ulid_mono readings state) [
  | none ↦ none
  | some (id, state') ↦ some (from_inner id, state')
]

gen_ulid_timestamp :
    (r : Reading)
    → r.now < 2 ^ 48
    → (u : Ulid) × (gen_ulid r ≡ returned u) × (timestamp_of u ≡ r.now)
unfolding gen_ulid new_ulid Basic.poll_id timestamp_of
gen_ulid_timestamp r h =
    (from_inner (from_components ulid r.now r.rand), refl, timestamp-from_inner r.now r.rand h)

-- `gen_ulid` returns a ULID with the timestamp of its reading, if 48 bits can hold it: it never
-- panics. From a valid state of the thread, with readings that the timestamp field can hold of which
-- one is past the timestamp of the state, `gen_ulid_mono` returns a ULID that the column type orders
-- after the state's, and stores it.
pub gen_ulid_lem :
    (early later : List Reading) (r : Reading) (state : ℕ)
    → IsCanonical (ulid_id ulid) state
    → All (λ (q : Reading). q.now < 2 ^ 48) early
    → r.now < 2 ^ 48
    → (ulid_id ulid).timestamp state < r.now
    → ((u : Ulid) × (gen_ulid r ≡ returned u) × (timestamp_of u ≡ r.now))
      × ((u : Ulid) × (gen_ulid_mono (early ++ r ∷ later) state ≡ some (u, to_inner u))
          × (cmp (from_inner state) u ≡ Ordering.lt))
unfolding gen_ulid_mono new_ulid_mono
gen_ulid_lem early later r state c fits fit ahead =
    let law = ulid_id-IsLawful ulid ulid-IsLayout in
    let (id, found, above, canonical) =
      mono_next_total (ulid_id ulid) law early later r state c
        (All-mono _ _ early (λ q h. field_holds q.now h) fits) (field_holds r.now fit) ahead in
    (
      gen_ulid_timestamp r fit,
      (
        from_inner id,
        rw (found, gen_ulid_mono, new_ulid_mono) (same id canonical.fits),
        cmp-to_inner (from_inner state) (from_inner id) (from_inner-IsUlid state)
              (from_inner-IsUlid id)
            ∙ rw (to_inner-from_inner state c.fits, to_inner-from_inner id canonical.fits)
                (lt_compare state id above),
      ),
    )
  where
    field_holds : (now : ℕ) → now < 2 ^ 48 → now ≤ (ulid_id ulid).max_timestamp
    field_holds now h = omega (arith, ulid-timestamp_mask ulid ulid-IsLayout)

    same :
        (id : ℕ)
        → id < 256 ^ 16
        → ◌≡◌ {A = Option (Ulid × ℕ)}
            (some (from_inner id, id))
            (some (from_inner id, to_inner (from_inner id)))
    same id h = rw (to_inner-from_inner id h) refl
