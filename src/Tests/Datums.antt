-- ===== src/Tests/Datums.antt =====
-- ULIDs in the memory of the server.
use ferroid.Common.{ℕ, ◌+◌, ◌≤◌, ◌≡◌, inl, arith, List, [], ◌∷◌, All}
use ferroid.Postgres.Ulid.{Ulid, from_inner, from_inner-IsUlid}
use ferroid.Postgres.Datum.{
  Memory, Datum, raw_datum, null, argument, error, AreApart, IsAllocator, box_into,
  unbox_arg_unchecked, unbox-box_into,
}

-- An allocator: the first address past all ULIDs.
abbrev past : List ℕ → ℕ
past [] = 0
past (p ∷ ps) = p + 16 + past ps

abbrev palloc : Memory → ℕ
palloc m = past m.live

past-AreApart : (ps : List ℕ) (q : ℕ) → past ps ≤ q → All (λ p. AreApart p q) ps
past-AreApart [] q h = tt
past-AreApart (p ∷ ps) q h = (inl (omega arith), past-AreApart ps q (omega arith))

palloc-IsAllocator : IsAllocator palloc
palloc-IsAllocator m = past-AreApart m.live (past m.live) (omega arith)

-- Two ULIDs of zeros.
abbrev memory : Memory
memory = record { byte_at = λ a. 0; live = 0 ∷ 16 ∷ [] }

abbrev ulid : Ulid
ulid = from_inner 42

abbrev boxed : Datum × Memory
boxed = box_into palloc ulid memory

unbox-box_into_example :
    (unbox_arg_unchecked boxed.0 boxed.1 ≡ argument ulid)
    × All
        (λ p. unbox_arg_unchecked (raw_datum p) boxed.1 ≡ unbox_arg_unchecked (raw_datum p) memory)
        (0 ∷ 16 ∷ [])
    × (boxed.1.live ≡ palloc memory ∷ 0 ∷ 16 ∷ [])
    × (unbox_arg_unchecked null boxed.1 ≡ error)
unbox-box_into_example = unbox-box_into palloc palloc-IsAllocator ulid memory (from_inner-IsUlid 42)
