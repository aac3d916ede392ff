-- ===== src/Generator/Interface/Instances.antt =====
-- The generators as implementations of their traits.
use ferroid.Common.{ℕ, List, Option, none, some}
use ferroid.Id.Snowflake.{SnowflakeId}
use ferroid.Id.Ulid.{UlidId}
use ferroid.Generator.Poll.{Poll, ready, pending, Poll-cases}
use ferroid.Generator.Poll
use ferroid.Generator.Snowflake.Basic
use ferroid.Generator.Snowflake.Basic.{Next}
use ferroid.Generator.Snowflake.Atomic
use ferroid.Generator.Snowflake.Lock
use ferroid.Generator.Snowflake.Lock.{Mutex}
use ferroid.Generator.Snowflake.Parking
use ferroid.Generator.Ulid.Basic as UlidBasic
use ferroid.Generator.Ulid.BasicMono
use ferroid.Generator.Ulid.BasicMono.{Reading}
use ferroid.Generator.Ulid.AtomicMono
use ferroid.Generator.Ulid.LockMono
use ferroid.Generator.Ulid.Parking as UlidParking
use ferroid.Generator.Interface.{Result, Generator, infallible, fallible, result_of}

-- What a call of `next_id` returns and stores.
abbrev pub taken : Option Next → Option (ℕ × ℕ)
taken none = none
taken (some n) = some (n.id, n.state)

-- A step of a locked generator, with Rust's `Result`.
abbrev pub plain : {A S : Type 0} → Poll.Result A × S → Result A Poll.Error × S
plain (result, s) = (result_of result, s)

abbrev pub plain_next : {S : Type 0} → Option (Poll.Result ℕ × S) → Option (Result ℕ Poll.Error × S)
plain_next none = none
plain_next (some r) = some (plain r)

module _ (o : SnowflakeId) where
  abbrev pub basic_snowflake : Generator ℕ ℕ ℕ
  basic_snowflake =
      infallible (Basic.new o) (λ readings s. taken (Basic.next_id o readings s)) (Basic.poll_id o)

  abbrev pub atomic_snowflake : Generator ℕ ℕ ℕ
  atomic_snowflake =
      infallible (Atomic.new o) (λ readings s. taken (Atomic.next_id o readings s))
        (Atomic.poll_id o)

  abbrev pub lock_snowflake : Generator ℕ ℕ Mutex
  lock_snowflake =
      fallible (Lock.new o) (λ readings s. plain_next (Lock.try_next_id o readings s))
        (λ now s. plain (Lock.try_poll_id o now s))

  abbrev pub parking_snowflake : Generator ℕ ℕ ℕ
  parking_snowflake = fallible (Parking.new o) (Parking.try_next_id o) (Parking.try_poll_id o)

module _ (u : UlidId) where
  -- It keeps no state.
  abbrev pub basic_ulid_next : List Reading → Unit {0} → Option (ℕ × Unit {0})
  basic_ulid_next readings s = elim (UlidBasic.next_id u readings) [
    | none ↦ none
    | some id ↦ some (id, s)
  ]

  abbrev pub basic_ulid : Generator Unit Reading Unit
  basic_ulid = infallible (λ a. a) basic_ulid_next (λ r s. (UlidBasic.poll_id u r, s))

  abbrev pub basic_mono : Generator Unit Reading ℕ
  basic_mono =
      infallible (λ a. BasicMono.new u) (BasicMono.next_id u)
        (λ r s. BasicMono.poll_id u r.now r.rand s)

  abbrev pub atomic_mono : Generator Unit Reading ℕ
  atomic_mono =
      infallible (λ a. AtomicMono.new u) (AtomicMono.next_id u)
        (λ r s. AtomicMono.poll_id u r.now r.rand s s)

  abbrev pub lock_mono : Generator Unit Reading Mutex
  lock_mono =
      fallible (λ a. LockMono.new u) (λ readings s. plain_next (LockMono.try_next_id u readings s))
        (λ r s. plain (LockMono.try_poll_id u r.now r.rand s))

  abbrev pub parking_mono : Generator Unit Reading ℕ
  parking_mono =
      fallible (λ a. UlidParking.new u) (UlidParking.try_next_id u) (UlidParking.try_poll_id u)
