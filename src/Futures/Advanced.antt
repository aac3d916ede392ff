-- ===== src/Futures/Advanced.antt =====
-- The asynchronous loop of a locked Snowflake generator over readings that have advanced by its waits.
use mathlib.Core.Path.{subst}
use ferroid.Common.{
  ℕ, suc, ◌+◌, ◌≤◌, ◌<◌, ◌≡◌, ◌≢◌, refl, ap, ◌∙◌, arith, false, List, [], ◌∷◌, length, Option, some,
  inl, inr,
}
use ferroid.Id.Snowflake.{SnowflakeId, IsLawful}
use ferroid.Generator.Poll.{Poll, ready, pending, Result, ok, Poll-cases}
use ferroid.Generator.Snowflake.Basic.{poll_id}
use ferroid.Generator.Snowflake.Basic.Step.{PollSpec, poll_id-PollSpec}
use ferroid.Generator.Snowflake.Basic.Run.{FromMachine}
use ferroid.Generator.Snowflake.Lock.{Mutex, try_poll_id}
use ferroid.Generator.Snowflake.Lock.Refines.{try_poll_id-poll_id}
use ferroid.Futures.{Awaited, slept, back_off, try_next_id_async}

abbrev pub unlocked : ℕ → Mutex
unlocked id = record { id = id; poisoned = false }

module _ (o : SnowflakeId) where
  -- The wait that a poll asks for, in units of the clock.
  abbrev pub wait : ℕ → ℕ → ℕ
  wait now state = elim (poll_id o now state).0 [ ready id ↦ 0 | pending d ↦ d ]

  -- The loop returned this ID after at most so many sleeps.
  pub record Ends (machine state most : ℕ) (r : Option (Awaited Mutex)) : Type 0 where
    pub id : ℕ
    pub sleeps : List ℕ
    pub returned : r ≡ some (record { result = ok id; state = unlocked id; sleeps = sleeps })
    pub after : state < id
    pub from_machine : FromMachine o machine id
    pub few : length sleeps ≤ most

  async_ready :
      (g now state id : ℕ) (rest : List ℕ)
      → (poll_id o now state).0 ≡ ready id
      → try_next_id_async (try_poll_id o) g (now ∷ rest) (unlocked state)
        ≡ some (record { result = ok id; state = unlocked (poll_id o now state).1; sleeps = [] })
  unfolding try_next_id_async
  async_ready g now state id rest e =
      rw ((try_poll_id-poll_id o now state).0, e, try_next_id_async)
        (ap
          (λ (r : Result Poll × Mutex). some (record { result = ok id; state = r.1; sleeps = [] }))
          (try_poll_id-poll_id o now state).0)

  async_pending :
      (g now state d : ℕ) (rest : List ℕ)
      → (poll_id o now state).0 ≡ pending d
      → try_next_id_async (try_poll_id o) g (now ∷ rest) (unlocked state)
        ≡ slept
            (back_off (try_poll_id o) g d)
            (try_next_id_async (try_poll_id o) g rest (unlocked (poll_id o now state).1))
  unfolding try_next_id_async
  async_pending g now state d rest e =
      rw ((try_poll_id-poll_id o now state).0, e, try_next_id_async)
        (ap
          (λ (r : Result Poll × Mutex).
            slept (back_off (try_poll_id o) g d) (try_next_id_async (try_poll_id o) g rest r.1))
          (try_poll_id-poll_id o now state).0)

  sleeps_once :
      (machine state most dur : ℕ) (r : Option (Awaited Mutex))
      → Ends machine state most r
      → Ends machine state (suc most) (slept dur r)
  sleeps_once machine state most dur r e = rw e.returned (record {
    id = e.id;
    sleeps = dur ∷ e.sleeps;
    returned = refl;
    after = e.after;
    from_machine = e.from_machine;
    few = omega (arith, e.few);
  })

module _ (o : SnowflakeId) (law : IsLawful o) (g machine state : ℕ)
    (f : FromMachine o machine state) where
  abbrev loop : List ℕ → Option (Awaited Mutex)
  loop readings = try_next_id_async (try_poll_id o) g readings (unlocked state)

  -- What a poll says of the state: a ready one hands out a later ID, one that waits leaves the state
  -- and its wait reaches the timestamp, or is one unit at the timestamp.
  pub spec_of :
      (now : ℕ) (p : Poll)
      → now ≤ o.max_timestamp
      → (poll_id o now state).0 ≡ p
      → PollSpec o now state p (poll_id o now state).1
  spec_of now p fit e =
      subst (λ q. PollSpec o now state q (poll_id o now state).1) e
        (poll_id-PollSpec o law now state f.1 fit)

  ends_now :
      (now id most : ℕ) (rest : List ℕ)
      → now ≤ o.max_timestamp
      → (poll_id o now state).0 ≡ ready id
      → Ends o machine state most (loop (now ∷ rest))
  ends_now now id most rest fit e =
      let spec : PollSpec o now state (ready id) (poll_id o now state).1 =
        spec_of now (ready id) fit e in
      record {
        id = id;
        sleeps = [];
        returned = async_ready o g now state id rest e ∙ rw spec.0 refl;
        after = spec.1.after;
        from_machine = (spec.1.same_machine ∙ f.0, spec.1.canonical);
        few = omega arith;
      }

  waits_on :
      (now d most : ℕ) (rest : List ℕ)
      → now ≤ o.max_timestamp
      → (poll_id o now state).0 ≡ pending d
      → Ends o machine state most (loop rest)
      → Ends o machine state (suc most) (loop (now ∷ rest))
  waits_on now d most rest fit e later =
      let spec : PollSpec o now state (pending d) (poll_id o now state).1 =
        spec_of now (pending d) fit e in
      rw (async_pending o g now state d rest e, spec.0)
        (sleeps_once o machine state most _ (loop rest) later)

  -- A reading past the timestamp is not waited at.
  past_timestamp :
      (now d : ℕ)
      → now ≤ o.max_timestamp
      → o.timestamp state < now
      → (poll_id o now state).0 ≢ pending d
  past_timestamp now d fit past e = never (spec_of now (pending d) fit e)
    where
      never : PollSpec o now state (pending d) (poll_id o now state).1 → ⊥
      never spec = omega arith

  -- At or past the timestamp the wait is one unit.
  wait_at :
      (now d : ℕ)
      → now ≤ o.max_timestamp
      → o.timestamp state ≤ now
      → (poll_id o now state).0 ≡ pending d
      → (d ≡ 1) × (now ≡ o.timestamp state)
  wait_at now d fit reached e = one (spec_of now (pending d) fit e)
    where
      one :
          PollSpec o now state (pending d) (poll_id o now state).1
          → (d ≡ 1) × (now ≡ o.timestamp state)
      one (same, some_wait, inl behind) = absurd (omega arith)
      one (same, some_wait, inr (at, full, unit)) = (unit, at)

  -- After the wait the timestamp is reached.
  wait_reaches :
      (now d : ℕ)
      → now ≤ o.max_timestamp
      → (poll_id o now state).0 ≡ pending d
      → o.timestamp state ≤ now + d
  wait_reaches now d fit e = reaches (spec_of now (pending d) fit e)
    where
      reaches :
          PollSpec o now state (pending d) (poll_id o now state).1 → o.timestamp state ≤ now + d
      reaches spec = omega arith

  third :
      (now : ℕ) (rest : List ℕ)
      → now ≤ o.max_timestamp
      → o.timestamp state < now
      → Ends o machine state 0 (loop (now ∷ rest))
  third now rest fit past = elim (Poll-cases (poll_id o now state).0) [
    | inl (id, e) ↦ ends_now now id 0 rest fit e
    | inr (d, e) ↦ absurd (past_timestamp now d fit past e)
  ]

  second :
      (now next : ℕ) (rest : List ℕ)
      → now ≤ o.max_timestamp
      → next ≤ o.max_timestamp
      → o.timestamp state ≤ now
      → now + wait o now state ≤ next
      → Ends o machine state 1 (loop (now ∷ next ∷ rest))
  second now next rest fit fit' reached slept_on = elim (Poll-cases (poll_id o now state).0) [
    | inl (id, e) ↦ ends_now now id 1 (next ∷ rest) fit e
    | inr (d, e) ↦
        let (unit, at) = wait_at now d fit reached e in
        waits_on now d 0 (next ∷ rest) fit e
          (third next rest fit' (omega (arith, rw (wait, e) at slept_on)))
  ]

-- Over readings that have advanced by as many units as the poll asked to wait.
pub ends_of_waits :
    (o : SnowflakeId)
    → IsLawful o
    → (g machine state first second third : ℕ) (rest : List ℕ) → FromMachine o machine state
    → first ≤ o.max_timestamp
    → second ≤ o.max_timestamp
    → third ≤ o.max_timestamp
    → first + wait o first state ≤ second
    → second + wait o second state ≤ third
    → Ends o machine state 2
        (try_next_id_async (try_poll_id o) g (first ∷ second ∷ third ∷ rest) (unlocked state))
ends_of_waits o law g machine state now next last rest f fit fit' fit'' slept_on slept_on' =
    elim (Poll-cases (poll_id o now state).0) [
      | inl (id, e) ↦ ends_now o law g machine state f now id 2 (next ∷ last ∷ rest) fit e
      | inr (d, e) ↦
          let reached = wait_reaches o law g machine state f now d fit e in
          waits_on o law g machine state f now d 1 (next ∷ last ∷ rest) fit e (
            second o law g machine state f next last rest fit' fit''
              (omega (arith, reached, rw (wait, e) at slept_on)) slept_on')
    ]
