-- ===== src/Generator/Interface/Implements.antt =====
-- The generators keep the promises of their traits.
use ferroid.Common.{ℕ, ◌≡◌, refl, List, [], ◌∷◌, inl, inr}
use ferroid.Id.Snowflake.{SnowflakeId}
use ferroid.Id.Ulid.{UlidId}
use ferroid.Generator.Poll.{Poll-cases, Result-cases}
use ferroid.Generator.Snowflake.Basic
use ferroid.Generator.Snowflake.Atomic
use ferroid.Generator.Snowflake.Lock
use ferroid.Generator.Snowflake.Lock.{Mutex}
use ferroid.Generator.Snowflake.Parking
use ferroid.Generator.Snowflake.Parking.{into_infallible}
use ferroid.Generator.Ulid.Basic as UlidBasic
use ferroid.Generator.Ulid.BasicMono
use ferroid.Generator.Ulid.BasicMono.{Reading}
use ferroid.Generator.Ulid.AtomicMono
use ferroid.Generator.Ulid.LockMono
use ferroid.Generator.Ulid.Parking as UlidParking
use ferroid.Generator.Interface.Looping.{
  IsGenerator, until_ready, first_ready, infallible-IsGenerator, fallible-IsGenerator, answers,
}
use ferroid.Generator.Interface.Instances.{
  taken, plain, plain_next, basic_snowflake, atomic_snowflake, lock_snowflake, parking_snowflake,
  basic_ulid, basic_ulid_next, basic_mono, atomic_mono, lock_mono, parking_mono,
}

module _ (o : SnowflakeId) where
  pub basic_loop :
      (readings : List ℕ) (s : ℕ) (yields : List ℕ)
      → taken (Basic.next_id_loop o readings s yields) ≡ first_ready (Basic.poll_id o) readings s
  unfolding Basic.next_id_loop
  basic_loop [] s yields = refl
  basic_loop (now ∷ rest) s yields = elim (Poll-cases (Basic.poll_id o now s).0) [
    | inl (id, e) ↦ rw (e, Basic.next_id_loop, first_ready) refl
    | inr (d, e) ↦
        rw (e, Basic.next_id_loop, first_ready)
          (basic_loop rest (Basic.poll_id o now s).1 (d ∷ yields))
  ]

  atomic_loop :
      (readings : List ℕ) (s : ℕ) (yields : List ℕ)
      → taken (Atomic.next_id_loop o readings s yields) ≡ first_ready (Atomic.poll_id o) readings s
  unfolding Atomic.next_id_loop
  atomic_loop [] s yields = refl
  atomic_loop (now ∷ rest) s yields = elim (Poll-cases (Atomic.poll_id o now s).0) [
    | inl (id, e) ↦ rw (e, Atomic.next_id_loop, first_ready) refl
    | inr (d, e) ↦
        rw (e, Atomic.next_id_loop, first_ready)
          (atomic_loop rest (Atomic.poll_id o now s).1 (d ∷ yields))
  ]

  lock_loop :
      (readings : List ℕ) (s : Mutex)
      → plain_next (Lock.try_next_id o readings s)
        ≡ until_ready (λ now s. plain (Lock.try_poll_id o now s)) readings s
  unfolding Lock.try_next_id
  lock_loop [] s = refl
  lock_loop (now ∷ rest) s = elim (Result-cases (Lock.try_poll_id o now s).0) [
    | inl (x, e) ↦ rw (e, Lock.try_next_id, until_ready) refl
    | inr (inl (id, e)) ↦ rw (e, Lock.try_next_id, until_ready) refl
    | inr (inr (d, e)) ↦
        rw (e, Lock.try_next_id, until_ready) (lock_loop rest (Lock.try_poll_id o now s).1)
  ]

  parking_loop :
      (readings : List ℕ) (s : ℕ)
      → Parking.try_next_id o readings s ≡ until_ready (Parking.try_poll_id o) readings s
  unfolding Parking.try_next_id
  parking_loop [] s = refl
  parking_loop (now ∷ rest) s = elim (answers (Parking.try_poll_id o now s).0) [
    | inl (x, e) ↦ rw (e, Parking.try_next_id, until_ready) refl
    | inr (inl (id, e)) ↦ rw (e, Parking.try_next_id, until_ready) refl
    | inr (inr (d, e)) ↦
        rw (e, Parking.try_next_id, until_ready) (parking_loop rest (Parking.try_poll_id o now s).1)
  ]

module _ (u : UlidId) where
  basic_ulid_loop :
      (readings : List Reading) (s : Unit)
      → basic_ulid_next u readings s ≡ first_ready (λ r s. (UlidBasic.poll_id u r, s)) readings s
  unfolding UlidBasic.next_id UlidBasic.poll_id
  basic_ulid_loop [] s = refl
  basic_ulid_loop (r ∷ rest) s = refl

  pub basic_mono_loop :
      (readings : List Reading) (s : ℕ)
      → BasicMono.next_id u readings s
        ≡ first_ready (λ r s. BasicMono.poll_id u r.now r.rand s) readings s
  unfolding BasicMono.next_id
  basic_mono_loop [] s = refl
  basic_mono_loop (r ∷ rest) s = elim (Poll-cases (BasicMono.poll_id u r.now r.rand s).0) [
    | inl (id, e) ↦ rw (e, BasicMono.next_id, first_ready) refl
    | inr (d, e) ↦
        rw (e, BasicMono.next_id, first_ready)
          (basic_mono_loop rest (BasicMono.poll_id u r.now r.rand s).1)
  ]

  atomic_mono_loop :
      (readings : List Reading) (s : ℕ)
      → AtomicMono.next_id u readings s
        ≡ first_ready (λ r s. AtomicMono.poll_id u r.now r.rand s s) readings s
  unfolding AtomicMono.next_id
  atomic_mono_loop [] s = refl
  atomic_mono_loop (r ∷ rest) s = elim (Poll-cases (AtomicMono.poll_id u r.now r.rand s s).0) [
    | inl (id, e) ↦ rw (e, AtomicMono.next_id, first_ready) refl
    | inr (d, e) ↦
        rw (e, AtomicMono.next_id, first_ready)
          (atomic_mono_loop rest (AtomicMono.poll_id u r.now r.rand s s).1)
  ]

  lock_mono_loop :
      (readings : List Reading) (s : Mutex)
      → plain_next (LockMono.try_next_id u readings s)
        ≡ until_ready (λ r s. plain (LockMono.try_poll_id u r.now r.rand s)) readings s
  unfolding LockMono.try_next_id
  lock_mono_loop [] s = refl
  lock_mono_loop (r ∷ rest) s = elim (Result-cases (LockMono.try_poll_id u r.now r.rand s).0) [
    | inl (x, e) ↦ rw (e, LockMono.try_next_id, until_ready) refl
    | inr (inl (id, e)) ↦ rw (e, LockMono.try_next_id, until_ready) refl
    | inr (inr (d, e)) ↦
        rw (e, LockMono.try_next_id, until_ready)
          (lock_mono_loop rest (LockMono.try_poll_id u r.now r.rand s).1)
  ]

  parking_mono_loop :
      (readings : List Reading) (s : ℕ)
      → UlidParking.try_next_id u readings s ≡ until_ready (UlidParking.try_poll_id u) readings s
  unfolding UlidParking.try_next_id
  parking_mono_loop [] s = refl
  parking_mono_loop (r ∷ rest) s = elim (answers (UlidParking.try_poll_id u r s).0) [
    | inl (x, e) ↦ rw (e, UlidParking.try_next_id, until_ready) refl
    | inr (inl (id, e)) ↦ rw (e, UlidParking.try_next_id, until_ready) refl
    | inr (inr (d, e)) ↦
        rw (e, UlidParking.try_next_id, until_ready)
          (parking_mono_loop rest (UlidParking.try_poll_id u r s).1)
  ]

-- Each generator, as an implementation of its trait, in the standard build and with `parking-lot`:
-- `try_next_id` polls by `try_poll_id` until the first ID or error, and returns that with the state that
-- the poll left; and where the error type has no values, `next_id` and `poll_id`, overridden or not, are
-- `try_next_id` and `try_poll_id` without the `Ok`. The atomic generators are undisturbed.
pub generators-IsGenerator :
    (o : SnowflakeId) (u : UlidId)
    → IsGenerator (basic_snowflake o)
      × IsGenerator (atomic_snowflake o)
      × IsGenerator (lock_snowflake o)
      × IsGenerator (parking_snowflake o)
      × IsGenerator (basic_ulid u)
      × IsGenerator (basic_mono u)
      × IsGenerator (atomic_mono u)
      × IsGenerator (lock_mono u)
      × IsGenerator (parking_mono u)
unfolding Basic.next_id Atomic.next_id
generators-IsGenerator o u = (
  infallible-IsGenerator _ _ _ (λ readings s. basic_loop o readings s []),
  infallible-IsGenerator _ _ _ (λ readings s. atomic_loop o readings s []),
  fallible-IsGenerator _ _ _ (lock_loop o),
  fallible-IsGenerator _ _ _ (parking_loop o),
  infallible-IsGenerator _ _ _ (basic_ulid_loop u),
  infallible-IsGenerator _ _ _ (basic_mono_loop u),
  infallible-IsGenerator _ _ _ (atomic_mono_loop u),
  fallible-IsGenerator _ _ _ (lock_mono_loop u),
  fallible-IsGenerator _ _ _ (parking_mono_loop u),
)
