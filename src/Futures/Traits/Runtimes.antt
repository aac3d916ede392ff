-- ===== src/Futures/Traits/Runtimes.antt =====
-- What the asynchronous methods return, on any runtime.
use ferroid.Common.{ℕ, ◌≡◌, refl, sym, ap, ◌∙◌, List, [], ◌∷◌, Option, none, some, inl, inr}
use ferroid.Generator.Ulid.BasicMono.{Reading}
use ferroid.Generator.Interface.{Generator, Result, value_of, provided_next_id}
use ferroid.Generator.Interface.Looping.{IsGenerator, until_ready, answers}
use ferroid.Futures.Traits.{SleepProvider, try_next_id_async, next_id_async}
use ferroid.Futures.Traits.Tokio
use ferroid.Futures.Traits.Smol

-- The result and the state, without the world of the runtime.
abbrev pub awaited : {A S W : Type 0} → Option (A × S × W) → Option (A × S)
awaited none = none
awaited (some (result, s, w)) = some (result, s)

module _ {A R S W : Type 0} (g : Generator A R S) (granularity_millis : ℕ)
    (p : SleepProvider W) where
  try_next_id_async-until_ready :
      (readings : List R) (s : S) (w : W)
      → awaited (try_next_id_async g granularity_millis p readings s w)
        ≡ until_ready g.try_poll_id readings s
  unfolding try_next_id_async
  try_next_id_async-until_ready [] s w = refl
  try_next_id_async-until_ready (r ∷ rest) s w = elim (answers (g.try_poll_id r s).0) [
    | inl (x, e) ↦ rw (e, try_next_id_async, until_ready) refl
    | inr (inl (id, e)) ↦ rw (e, try_next_id_async, until_ready) refl
    | inr (inr (d, e)) ↦
        rw (e, try_next_id_async, until_ready)
          (try_next_id_async-until_ready rest (g.try_poll_id r s).1 _)
  ]

  provided-awaited :
      (into : g.Err → ⊥) (a : Option (Result ℕ g.Err × S × W))
      → awaited
          (elim a [ none ↦ none | some (result, s', w') ↦ some (value_of into result, s', w') ])
        ≡ provided_next_id into (awaited a)
  unfolding provided_next_id
  provided-awaited into none = refl
  provided-awaited into (some (result, s', w')) = refl

  -- With any sleep provider.
  try_next_id_async-IsGenerator :
      IsGenerator g
      → (readings : List R) (s : S) (w : W)
      → awaited (try_next_id_async g granularity_millis p readings s w) ≡ g.try_next_id readings s
  try_next_id_async-IsGenerator law readings s w =
      try_next_id_async-until_ready readings s w ∙ sym (law.loops readings s)

  next_id_async-IsGenerator :
      IsGenerator g
      → (into : g.Err → ⊥) (readings : List R) (s : S) (w : W)
      → awaited (next_id_async g granularity_millis p into readings s w) ≡ g.next_id into readings s
  unfolding next_id_async
  next_id_async-IsGenerator law into readings s w =
      provided-awaited into (try_next_id_async g granularity_millis p readings s w)
      ∙ ap (provided_next_id into) (try_next_id_async-IsGenerator law readings s w)
      ∙ sym (law.next into readings s)

module _ {S T W : Type 0} (g : Generator ℕ ℕ S) (u : Generator Unit Reading T)
    (granularity_millis : ℕ) (sleep after : ℕ → W → W) where
  -- For a Snowflake generator and a ULID generator that keep the promises of their traits, as all of them
  -- do, polled by nobody else, and whatever the sleeps do: on tokio and on smol, the asynchronous `try_next_id_async` ends with the
  -- result and the state of `try_next_id` on the same readings, an ID or an error.
  pub runtimes-try_next_id :
      IsGenerator g
      → IsGenerator u
      → (readings : List ℕ) (mono_readings : List Reading) (s : S) (t : T) (w : W)
      → (awaited (Tokio.try_next_id_async g granularity_millis sleep readings s w)
          ≡ g.try_next_id readings s)
        × (awaited (Smol.try_next_id_async g granularity_millis after readings s w)
            ≡ g.try_next_id readings s)
        × (awaited (Tokio.ulid_try_next_id_async u granularity_millis sleep mono_readings t w)
            ≡ u.try_next_id mono_readings t)
        × (awaited (Smol.ulid_try_next_id_async u granularity_millis after mono_readings t w)
            ≡ u.try_next_id mono_readings t)
  unfolding Tokio.try_next_id_async Smol.try_next_id_async Tokio.ulid_try_next_id_async
      Smol.ulid_try_next_id_async
  runtimes-try_next_id law law' readings mono_readings s t w = (
    try_next_id_async-IsGenerator g granularity_millis _ law readings s w,
    try_next_id_async-IsGenerator g granularity_millis _ law readings s w,
    try_next_id_async-IsGenerator u granularity_millis _ law' mono_readings t w,
    try_next_id_async-IsGenerator u granularity_millis _ law' mono_readings t w,
  )
