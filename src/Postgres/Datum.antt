-- ===== src/Postgres/Datum.antt =====
-- How crates/pg-ferroid/src/lib.rs passes ULIDs by reference: `FromDatum`, `IntoDatum`, `ArgAbi` and `BoxRet`.
-- Memory is a byte at each address; `live` are the addresses of the ULIDs that PostgreSQL has in memory.
-- `palloc` is its allocator, of which `IsAllocator` says what is documented: memory that nobody uses.
use ferroid.Common.{
  ℕ, zero, suc, ◌+◌, ◌≤◌, ◌<◌, ◌≡◌, ◌⊎◌, inl, inr, refl, ap, ◌∙◌, arith, Bool, true, false, List,
  [], ◌∷◌, length, All, Option, none, some, if◌then◌else◌, ◌==◌,
}
use mathlib.Core.Path.{subst}
use ferroid.Postgres.Ulid.{Ulid, IsUlid, from_bytes, ulid_size}

pub record Memory : Type 0 where
  pub byte_at : ℕ → ℕ
  pub live : List ℕ

abbrev pub read : ℕ → ℕ → (ℕ → ℕ) → List ℕ
read ptr zero m = []
read ptr (suc n) m = m ptr ∷ read (ptr + 1) n m

abbrev pub write : ℕ → List ℕ → (ℕ → ℕ) → ℕ → ℕ
write ptr [] m = m
write ptr (b ∷ bs) m = write (ptr + 1) bs (λ a. if a == ptr then b else m a)

-- Neither block of a ULID reaches into the other.
abbrev pub AreApart : ℕ → ℕ → Type 0
AreApart p q = (p + ulid_size ≤ q) ⊎ (q + ulid_size ≤ p)

abbrev pub IsAllocator : (Memory → ℕ) → Type 0
IsAllocator palloc = (m : Memory) → All (λ p. AreApart p (palloc m)) m.live

-- An argument or a result of a function of the server.
pub data Datum : Type 0 where
  raw_datum : (ptr : ℕ) → Datum
  null : Datum

-- `error` is the report of `pgrx::error!`.
pub data Unboxed : Type 0 where
  argument : (ulid : Ulid) → Unboxed
  error : Unboxed

unfoldable pub from_polymorphic_datum : ℕ → Bool → Memory → Option Ulid
unfolding from_bytes
from_polymorphic_datum datum is_null m =
    if is_null then none else some (from_bytes (read datum ulid_size m.byte_at))

module _ (palloc : Memory → ℕ) where
  -- The datum, and the memory that is left.
  unfoldable pub into_datum : Ulid → Memory → Option ℕ × Memory
  into_datum ulid m =
      let raw = palloc m in
      (some raw, record { byte_at = write raw ulid.bytes m.byte_at; live = raw ∷ m.live })

  unfoldable pub box_into : Ulid → Memory → Datum × Memory
  unfolding into_datum
  box_into ulid m =
      let (result, m') = into_datum ulid m in
      (elim result [ some datum ↦ raw_datum datum | none ↦ null ], m')

unfoldable pub unbox_arg_unchecked : Datum → Memory → Unboxed
unfolding from_polymorphic_datum
unbox_arg_unchecked (raw_datum ptr) m = elim (from_polymorphic_datum ptr false m) [
  | some ulid ↦ argument ulid
  | none ↦ error
]
unbox_arg_unchecked null m = elim (from_polymorphic_datum 0 true m) [
  | some ulid ↦ argument ulid
  | none ↦ error
]

write_other :
    (p : ℕ) (bs : List ℕ) (m : ℕ → ℕ) (a : ℕ) → (a < p) ⊎ (p + length bs ≤ a) → write p bs m a ≡ m a
write_other p [] m a h = refl
write_other p (b ∷ bs) m a h =
    write_other (p + 1) bs (λ a. if a == p then b else m a) a next ∙ rw other refl
  where
    next : (a < p + 1) ⊎ (p + 1 + length bs ≤ a)
    next = elim h [ inl lt ↦ inl (omega arith) | inr ge ↦ inr (omega arith) ]

    other : (a == p) ≡ false
    other = elim h [ inl lt ↦ ground arith | inr ge ↦ ground arith ]

read-write : (p : ℕ) (bs : List ℕ) (m : ℕ → ℕ) → read p (length bs) (write p bs m) ≡ bs
read-write p [] m = refl
read-write p (b ∷ bs) m =
    rw
      (
        write_other (p + 1) bs (λ a. if a == p then b else m a) p (inl (omega arith)),
        read-write (p + 1) bs (λ a. if a == p then b else m a),
        same,
      )
      refl
  where
    same : (p == p) ≡ true
    same = ground arith

read_other :
    (q n p : ℕ) (bs : List ℕ) (m : ℕ → ℕ)
    → (q + n ≤ p) ⊎ (p + length bs ≤ q)
    → read q n (write p bs m) ≡ read q n m
read_other q zero p bs m h = refl
read_other q (suc n) p bs m h =
    rw (write_other p bs m q here, read_other (q + 1) n p bs m next) refl
  where
    here : (q < p) ⊎ (p + length bs ≤ q)
    here = elim h [ inl le ↦ inl (omega arith) | inr ge ↦ inr ge ]

    next : (q + 1 + n ≤ p) ⊎ (p + length bs ≤ q + 1)
    next = elim h [ inl le ↦ inl (omega arith) | inr ge ↦ inr (omega arith) ]

-- A ULID that was in memory before.
kept :
    (ps : List ℕ) (p : ℕ) (bs : List ℕ) (m : ℕ → ℕ)
    → length bs ≡ ulid_size
    → All (λ q. AreApart q p) ps
    → All (λ q. read q ulid_size (write p bs m) ≡ read q ulid_size m) ps
kept [] p bs m size apart = tt
kept (q ∷ ps) p bs m size (h, apart) =
    (read_other q ulid_size p bs m there, kept ps p bs m size apart)
  where
    there : (q + ulid_size ≤ p) ⊎ (p + length bs ≤ q)
    there = elim h [ inl le ↦ inl le | inr ge ↦ inr (omega (arith, size)) ]

-- With an allocator that gives memory which no ULID uses: the ULID that a function returns comes back when
-- its datum is the argument of another, the ULIDs that were in memory are as they were, and the new
-- one is with them; a null is an error.
pub unbox-box_into :
    (palloc : Memory → ℕ)
    → IsAllocator palloc
    → (ulid : Ulid) (m : Memory) → IsUlid ulid
    → (unbox_arg_unchecked (box_into palloc ulid m).0 (box_into palloc ulid m).1 ≡ argument ulid)
      × All
          (λ p.
            unbox_arg_unchecked (raw_datum p) (box_into palloc ulid m).1
            ≡ unbox_arg_unchecked (raw_datum p) m)
          m.live
      × ((box_into palloc ulid m).1.live ≡ palloc m ∷ m.live)
      × (unbox_arg_unchecked null (box_into palloc ulid m).1 ≡ error)
unfolding box_into into_datum unbox_arg_unchecked from_polymorphic_datum from_bytes
unbox-box_into palloc fresh ulid m good = (
  back,
  same m.live (kept m.live (palloc m) ulid.bytes m.byte_at good.size (fresh m)),
  refl,
  refl,
)
  where
    back :
        argument
          (record { bytes = read (palloc m) ulid_size (write (palloc m) ulid.bytes m.byte_at) })
        ≡ argument ulid
    back =
        ap (λ (bs : List ℕ). argument (record { bytes = bs }))
          (subst (λ n. read (palloc m) n (write (palloc m) ulid.bytes m.byte_at) ≡ ulid.bytes)
            good.size (read-write (palloc m) ulid.bytes m.byte_at))

    same :
        (ps : List ℕ)
        → All
            (λ p.
              read p ulid_size (write (palloc m) ulid.bytes m.byte_at) ≡ read p ulid_size m.byte_at)
            ps
        → All
            (λ p.
              unbox_arg_unchecked (raw_datum p) (box_into palloc ulid m).1
              ≡ unbox_arg_unchecked (raw_datum p) m)
            ps
    same [] h = tt
    same (p ∷ ps) (e, h) = (ap (λ (bs : List ℕ). argument (record { bytes = bs })) e, same ps h)
