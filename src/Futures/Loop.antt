-- ===== src/Futures/Loop.antt =====
-- The asynchronous loop returns what the loop of the locked generators returns.
use ferroid.Common.{ℕ, ◌≡◌, refl, ◌∙◌, List, [], ◌∷◌, Option, none, some, inl, inr}
use ferroid.Id.Snowflake.{SnowflakeId}
use ferroid.Id.Ulid.{UlidId}
use ferroid.Generator.Poll.{Poll, Result, Result-cases}
use ferroid.Generator.Snowflake.Lock
use ferroid.Generator.Ulid.BasicMono.{Reading}
use ferroid.Generator.Ulid.LockMono
use ferroid.Futures.{Awaited, slept, try_next_id_async}

abbrev pub without_sleeps : {S : Type 0} → Option (Awaited S) → Option (Result ℕ × S)
without_sleeps none = none
without_sleeps (some a) = some (a.result, a.state)

without_sleeps-slept :
    {S : Type 0} (dur : ℕ) (a : Option (Awaited S))
    → without_sleeps (slept dur a) ≡ without_sleeps a
without_sleeps-slept dur none = refl
without_sleeps-slept dur (some a) = refl

-- Whatever the mutex and the readings are, the asynchronous loop of a locked Snowflake generator ends
-- with the same result and state as `try_next_id`.
try_next_id_async-try_next_id :
    (o : SnowflakeId) (g : ℕ) (readings : List ℕ) (s : Lock.Mutex)
    → without_sleeps (try_next_id_async (Lock.try_poll_id o) g readings s)
      ≡ Lock.try_next_id o readings s
unfolding try_next_id_async Lock.try_next_id
try_next_id_async-try_next_id o g [] s = refl
try_next_id_async-try_next_id o g (now ∷ rest) s =
    elim (Result-cases (Lock.try_poll_id o now s).0) [
      | inl (e, h) ↦ rw (h, try_next_id_async, Lock.try_next_id) refl
      | inr (inl (id, h)) ↦ rw (h, try_next_id_async, Lock.try_next_id) refl
      | inr (inr (d, h)) ↦
          rw (h, try_next_id_async, Lock.try_next_id)
            (without_sleeps-slept _
                (try_next_id_async (Lock.try_poll_id o) g rest (Lock.try_poll_id o now s).1)
              ∙ try_next_id_async-try_next_id o g rest (Lock.try_poll_id o now s).1)
    ]

-- A poll of the locked monotonic ULID generator, at a reading.
abbrev pub poll_mono : (o : UlidId) → Reading → Lock.Mutex → Result Poll × Lock.Mutex
poll_mono o r s = LockMono.try_poll_id o r.now r.rand s

-- The loop of ulid.rs, which is that of snowflake.rs.
unfoldable pub ulid_try_next_id_async :
    UlidId → ℕ → List Reading → Lock.Mutex → Option (Awaited Lock.Mutex)
ulid_try_next_id_async o g readings s = try_next_id_async (poll_mono o) g readings s

try_next_id_async_mono :
    (o : UlidId) (g : ℕ) (readings : List Reading) (s : Lock.Mutex)
    → without_sleeps (try_next_id_async (poll_mono o) g readings s)
      ≡ LockMono.try_next_id o readings s
unfolding try_next_id_async LockMono.try_next_id
try_next_id_async_mono o g [] s = refl
try_next_id_async_mono o g (r ∷ rest) s =
    elim (Result-cases (LockMono.try_poll_id o r.now r.rand s).0) [
      | inl (e, h) ↦ rw (h, try_next_id_async, LockMono.try_next_id) refl
      | inr (inl (id, h)) ↦ rw (h, try_next_id_async, LockMono.try_next_id) refl
      | inr (inr (d, h)) ↦
          rw (h, try_next_id_async, LockMono.try_next_id)
            (without_sleeps-slept _
                (try_next_id_async (poll_mono o) g rest (LockMono.try_poll_id o r.now r.rand s).1)
              ∙ try_next_id_async_mono o g rest (LockMono.try_poll_id o r.now r.rand s).1)
    ]

-- Whatever the mutex and the readings are: the asynchronous loops of the locked Snowflake generator and
-- of the locked monotonic ULID generator end with the same result and state as their `try_next_id`,
-- on a poisoned mutex too.
pub try_next_id_async_lem :
    (o : SnowflakeId) (u : UlidId) (g : ℕ) (readings : List ℕ) (mono_readings : List Reading)
    (s : Lock.Mutex)
    → (without_sleeps (try_next_id_async (Lock.try_poll_id o) g readings s)
        ≡ Lock.try_next_id o readings s)
      × (without_sleeps (ulid_try_next_id_async u g mono_readings s)
          ≡ LockMono.try_next_id u mono_readings s)
unfolding ulid_try_next_id_async
try_next_id_async_lem o u g readings mono_readings s =
    (try_next_id_async-try_next_id o g readings s, try_next_id_async_mono u g mono_readings s)
