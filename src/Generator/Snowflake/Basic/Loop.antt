-- ===== src/Generator/Snowflake/Basic/Loop.antt =====
-- The loop of `next_id`: it ends as soon as the clock passes the state, and backs off until then.
use mathlib.Core.Path.{subst}
use ferroid.Common.{ℕ, ◌≤◌, ◌<◌, ◌≡◌, inl, inr, arith, ◌∙◌, List, [], ◌∷◌, ◌++◌, All, Option, some}
use ferroid.Id.Snowflake.{SnowflakeId, IsLawful}
use ferroid.Generator.Poll.{ready, pending, Poll-cases}
use ferroid.Generator.Snowflake.Basic.{poll_id, next_id, next_id_loop, Next}
use ferroid.Generator.Snowflake.Basic.Step.{PollSpec, poll_id-PollSpec}
use ferroid.Generator.Snowflake.Basic.Run.{FromMachine}

module _ (o : SnowflakeId) where
  -- What a call of `next_id` that started at `state` has returned.
  pub record NextSpec (state m : ℕ) (n : Next) : Type 0 where
    pub stored : n.state ≡ n.id
    pub after : state < n.id
    pub from_machine : FromMachine o m n.id
    pub waits : All (λ d. 0 < d) n.yields

  abbrev Found : ℕ → ℕ → Option Next → Type 0
  Found state m r = (n : Next) × (r ≡ some n) × NextSpec state m n

  pub loop_ready :
      (now state id : ℕ) (rest yields : List ℕ)
      → (poll_id o now state).0 ≡ ready id
      → next_id_loop o (now ∷ rest) state yields
        ≡ some (record { id = id; state = (poll_id o now state).1; rest = rest; yields = yields })
  unfolding next_id_loop
  loop_ready now state id rest yields e = rw (e, next_id_loop)

  pub loop_pending :
      (now state d : ℕ) (rest yields : List ℕ)
      → (poll_id o now state).0 ≡ pending d
      → next_id_loop o (now ∷ rest) state yields
        ≡ next_id_loop o rest (poll_id o now state).1 (d ∷ yields)
  unfolding next_id_loop
  loop_pending now state d rest yields e = rw (e, next_id_loop)

module _ (o : SnowflakeId) (law : IsLawful o) where
  Found-now :
      (now state m id : ℕ) (rest yields : List ℕ)
      → FromMachine o m state
      → (poll_id o now state).0 ≡ ready id
      → PollSpec o now state (poll_id o now state).0 (poll_id o now state).1
      → All (λ d. 0 < d) yields
      → Found o state m (next_id_loop o (now ∷ rest) state yields)
  unfolding next_id_loop
  Found-now now state m id rest yields f e spec waits =
      let spec' : PollSpec o now state (ready id) (poll_id o now state).1 =
        subst (λ p. PollSpec o now state p (poll_id o now state).1) e spec in
      (
        record { id = id; state = (poll_id o now state).1; rest = rest; yields = yields },
        loop_ready o now state id rest yields e,
        record {
          stored = spec'.0;
          after = spec'.1.after;
          from_machine = (spec'.1.same_machine ∙ f.0, spec'.1.canonical);
          waits = waits;
        },
      )

  next_id_loop_total :
      (early later yields : List ℕ) (now state m : ℕ)
      → FromMachine o m state
      → All (λ r. r ≤ o.max_timestamp) early
      → now ≤ o.max_timestamp
      → o.timestamp state < now
      → All (λ d. 0 < d) yields
      → Found o state m (next_id_loop o (early ++ now ∷ later) state yields)
  next_id_loop_total [] later yields now state m f fits fit ahead waits =
      elim (Poll-cases (poll_id o now state).0) [
        | inl (id, e) ↦
            Found-now now state m id later yields f e (poll_id-PollSpec o law now state f.1 fit)
              waits
        | inr (d, e) ↦ absurd (
            never d (
              subst (λ p. PollSpec o now state p (poll_id o now state).1) e
                (poll_id-PollSpec o law now state f.1 fit)))
      ]
    where
      never : (d : ℕ) → PollSpec o now state (pending d) (poll_id o now state).1 → ⊥
      never d s = omega arith
  next_id_loop_total (r ∷ early) later yields now state m f (rfit, fits) fit ahead waits =
      elim (Poll-cases (poll_id o r state).0) [
        | inl (id, e) ↦
            Found-now r state m id (early ++ now ∷ later) yields f e
              (poll_id-PollSpec o law r state f.1 rfit) waits
        | inr (d, e) ↦
            let s : PollSpec o r state (pending d) (poll_id o r state).1 =
              subst (λ p. PollSpec o r state p (poll_id o r state).1) e
                (poll_id-PollSpec o law r state f.1 rfit) in
            rw (loop_pending o r state d (early ++ now ∷ later) yields e, s.0)
              (next_id_loop_total early later (d ∷ yields) now state m f fits fit ahead
                (s.1, waits))
      ]

  -- From a valid state, with readings that the timestamp field can hold, if the clock passes the
  -- timestamp of the state at some reading, `next_id` returns: an ID above
  -- the state, valid, of the same machine, stored as the new state; it only ever backs off by a
  -- positive time.
  pub next_id_total :
      (early later : List ℕ) (now state m : ℕ)
      → FromMachine o m state
      → All (λ r. r ≤ o.max_timestamp) early
      → now ≤ o.max_timestamp
      → o.timestamp state < now
      → (n : Next) × (next_id o (early ++ now ∷ later) state ≡ some n) × NextSpec o state m n
  unfolding next_id
  next_id_total early later now state m f fits fit ahead =
      next_id_loop_total early later [] now state m f fits fit ahead tt
