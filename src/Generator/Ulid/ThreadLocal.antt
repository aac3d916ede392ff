-- ===== src/Generator/Ulid/ThreadLocal.antt =====
-- `Ulid` of crates/ferroid/src/generator/ulid/thread_local.rs: two generators of each thread, whose clock
-- and source of randomness are parameters, and the constructors from times.
use ferroid.Common.{
  ℕ, ◌≤◌, ◌<◌, ◌≡◌, arith, List, [], ◌∷◌, ◌++◌, All, Option, some, inl, inr, ap, sym,
}
use mathlib.Core.Path.{subst}
use ferroid.Id.Ulid.{IsCanonical, IsLawful, UlidId}
use ferroid.Id.UlidLayout
use ferroid.Id.UlidLayout.{ulid, ulid_id, SystemTime, millis_since_epoch}
use ferroid.Generator.Poll.{ready, pending, Poll-cases}
use ferroid.Generator.Ulid.Basic
use ferroid.Generator.Ulid.BasicMono
use ferroid.Generator.Ulid.BasicMono.{Reading}
use ferroid.Generator.Ulid.BasicMono.Step.{MonoSpec, poll_id-MonoSpec}

-- `unreachable` is the panic of `unreachable!`.
pub data Generated : Type 0 where
  generated : (id : ℕ) → Generated
  unreachable : Generated

abbrev pub ids : UlidId
ids = ulid_id ulid

unfoldable pub new_ulid : Reading → Generated
new_ulid r = elim (Basic.poll_id ids r) [ ready id ↦ generated id | pending _ ↦ unreachable ]

-- With the new state of the thread's generator; `none` if the readings do not suffice.
unfoldable pub new_ulid_mono : List Reading → ℕ → Option (ℕ × ℕ)
new_ulid_mono readings state = BasicMono.next_id ids readings state

unfoldable pub from_timestamp : ℕ → ℕ → ℕ
from_timestamp timestamp rand = UlidLayout.from_timestamp ulid timestamp rand

unfoldable pub from_timestamp_and_rand : ℕ → ℕ → ℕ
from_timestamp_and_rand timestamp rand = UlidLayout.from_timestamp_and_rand ulid timestamp rand

unfoldable pub from_datetime : SystemTime → ℕ → ℕ
from_datetime datetime rand = UlidLayout.from_datetime ulid datetime rand

unfoldable pub from_datetime_and_rand : SystemTime → ℕ → ℕ
from_datetime_and_rand datetime rand =
    UlidLayout.from_datetime_and_rand ulid (millis_since_epoch datetime) rand

module _ (o : UlidId) (law : IsLawful o) where
  -- A returned ID lies above the state and is stored.
  abbrev Found : ℕ → Option (ℕ × ℕ) → Type 0
  Found state r = (id : ℕ) × (r ≡ some (id, id)) × (state < id) × IsCanonical o id

  Found-now :
      (r : Reading) (rest : List Reading) (state id : ℕ)
      → (BasicMono.poll_id o r.now r.rand state).0 ≡ ready id
      → MonoSpec o r.now r.rand state
          (BasicMono.poll_id o r.now r.rand state).0
          (BasicMono.poll_id o r.now r.rand state).1
      → Found state (BasicMono.next_id o (r ∷ rest) state)
  unfolding BasicMono.next_id
  Found-now r rest state id e spec =
      let spec' : MonoSpec o r.now r.rand state (ready id)
          (BasicMono.poll_id o r.now r.rand state).1 =
        subst (λ p. MonoSpec o r.now r.rand state p (BasicMono.poll_id o r.now r.rand state).1) e
          spec in
      (
        id,
        rw (e, BasicMono.next_id) (ap (λ (s : ℕ). some (id, s)) spec'.0),
        spec'.1.after,
        spec'.1.canonical,
      )

  pub mono_next_total :
      (early later : List Reading) (r : Reading) (state : ℕ)
      → IsCanonical o state
      → All (λ (q : Reading). q.now ≤ o.max_timestamp) early
      → r.now ≤ o.max_timestamp
      → o.timestamp state < r.now
      → Found state (BasicMono.next_id o (early ++ r ∷ later) state)
  unfolding BasicMono.next_id
  mono_next_total [] later r state c fits fit ahead =
      elim (Poll-cases (BasicMono.poll_id o r.now r.rand state).0) [
        | inl (id, e) ↦
            Found-now r later state id e (poll_id-MonoSpec o law r.now r.rand state c fit)
        | inr (d, e) ↦ absurd (
            never d (
              subst
                (λ p. MonoSpec o r.now r.rand state p (BasicMono.poll_id o r.now r.rand state).1) e
                (poll_id-MonoSpec o law r.now r.rand state c fit)))
      ]
    where
      never :
          (d : ℕ)
          → MonoSpec o r.now r.rand state (pending d) (BasicMono.poll_id o r.now r.rand state).1
          → ⊥
      never d s = omega arith
  mono_next_total (q ∷ early) later r state c (qfit, fits) fit ahead =
      elim (Poll-cases (BasicMono.poll_id o q.now q.rand state).0) [
        | inl (id, e) ↦
            Found-now q (early ++ r ∷ later) state id e
              (poll_id-MonoSpec o law q.now q.rand state c qfit)
        | inr (d, e) ↦
            let s : MonoSpec o q.now q.rand state (pending d)
                (BasicMono.poll_id o q.now q.rand state).1 =
              subst
                (λ p. MonoSpec o q.now q.rand state p (BasicMono.poll_id o q.now q.rand state).1) e
                (poll_id-MonoSpec o law q.now q.rand state c qfit) in
            rw (e, BasicMono.next_id)
              (subst (λ n. Found state (BasicMono.next_id o (early ++ r ∷ later) n)) (sym s.0)
                (mono_next_total early later r state c fits fit ahead))
      ]
