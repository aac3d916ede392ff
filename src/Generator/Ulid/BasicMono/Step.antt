-- ===== src/Generator/Ulid/BasicMono/Step.antt =====
-- One poll of the monotonic generator, on every branch.
use native.Mathlib.Nat.{mod-eq_of_lt}
use ferroid.Common.{
  ℕ, ◌+◌, ◌%◌, ◌≤◌, ◌<◌, ◌≡◌, ◌⊎◌, inl, inr, refl, ap, sym, arith, compare_cases, Bool-cases, true,
  false, ltb→lt, ◌∙◌,
}
use mathlib.Core.Path.{subst}
use ferroid.Id.Ulid.{
  UlidId, IsLawful, IsCanonical, has_random_room, increment_random, rollover_to_timestamp,
}
use ferroid.Generator.Poll.{Poll, ready, pending}
use ferroid.Generator.Ulid.BasicMono.{poll_id}

module _ (o : UlidId) where
  -- What a poll that hands out `id` at the reading `now` has done to the state.
  pub record Issues (now state id : ℕ) : Type 0 where
    pub after : state < id
    pub canonical : IsCanonical o id
    pub stamped : o.timestamp id ≡ now

  -- An ID is handed out where the clock is ahead, with the new random number cut to its field, or the
  -- random part has room, with its successor; it becomes the state. Else the state stays, and the
  -- wait is the time by which the clock is behind, or one unit.
  abbrev pub MonoSpec : ℕ → ℕ → ℕ → Poll → ℕ → Type 0
  MonoSpec now rand state (ready id) state' =
      (state' ≡ id)
      × Issues now state id
      × ((o.timestamp state < now) × (o.random id ≡ rand % (o.max_random + 1))
          ⊎ (now ≡ o.timestamp state)
            × (o.random state < o.max_random)
            × (o.random id ≡ o.random state + 1))
  MonoSpec now rand state (pending yield_for) state' =
      (state' ≡ state)
      × (0 < yield_for)
      × ((now + yield_for ≡ o.timestamp state)
          ⊎ (now ≡ o.timestamp state) × (o.random state ≡ o.max_random) × (yield_for ≡ 1))

module _ (o : UlidId) (law : IsLawful o) where
  -- Below the last random number the increment does not wrap.
  increment_random_lem :
      (state : ℕ)
      → o.random state < o.max_random
      → increment_random o state ≡ o.from_components (o.timestamp state) (o.random state + 1)
  unfolding increment_random
  increment_random_lem state room =
      ap (o.from_components (o.timestamp state)) (mod-eq_of_lt (omega (arith, law.random_fits)))

  above :
      {state : ℕ} (id : ℕ)
      → IsCanonical o state
      → o.from_components (o.timestamp state) (o.random state) < id
      → state < id
  above id c h = rw (law.rebuilt _ c) at h

  increment_random-Issues :
      (state : ℕ)
      → IsCanonical o state
      → o.random state < o.max_random
      → Issues o (o.timestamp state) state (increment_random o state)
  increment_random-Issues state c room = rw (increment_random_lem state room) (record {
    after = above _ c (law.next _ _ _ (omega arith) (omega arith));
    canonical = law.canonical _ _;
    stamped = law.timestamp_of _ _ (law.timestamp_le state);
  })

  rollover_to_timestamp-Issues :
      (now rand state : ℕ)
      → IsCanonical o state
      → now ≤ o.max_timestamp
      → o.timestamp state < now
      → Issues o now state (rollover_to_timestamp o state now rand)
  unfolding rollover_to_timestamp
  rollover_to_timestamp-Issues now rand state c fits later = record {
    after = above _ c (law.later _ _ _ _ later fits);
    canonical = law.canonical _ _;
    stamped = law.timestamp_of _ _ fits;
  }

  next_number :
      (state : ℕ)
      → o.random state < o.max_random
      → o.random (increment_random o state) ≡ o.random state + 1
  next_number state room =
      rw (increment_random_lem state room) (law.random_of _ _ ∙ mod-eq_of_lt (omega arith))

  room_left : (state : ℕ) → has_random_room o state ≡ true → o.random state < o.max_random
  unfolding has_random_room
  room_left state room = ltb→lt _ _ room

  no_room : (state : ℕ) → has_random_room o state ≡ false → o.random state ≡ o.max_random
  unfolding has_random_room
  no_room state full = ground (arith, law.random_le state)

  -- A poll at a reading that the timestamp field can hold meets its specification, whatever the
  -- random number is.
  pub poll_id-MonoSpec :
      (now rand state : ℕ)
      → IsCanonical o state
      → now ≤ o.max_timestamp
      → MonoSpec o now rand state (poll_id o now rand state).0 (poll_id o now rand state).1
  unfolding poll_id
  poll_id-MonoSpec now rand state c fits = elim (compare_cases now (o.timestamp state)) [
    | inl (e, behind) ↦ rw (e, poll_id) (refl, omega arith, inl (omega arith))
    | inr (inl (e, same)) ↦ elim (Bool-cases (has_random_room o state)) [
      | inl room ↦
          rw (e, room, poll_id)
            (
              refl,
              subst (λ t. Issues o t state (increment_random o state)) (sym same)
                  (increment_random-Issues state c (room_left state room)),
              inr (same, room_left state room, next_number state (room_left state room)),
            )
      | inr full ↦ rw (e, full, poll_id) (refl, omega arith, inr (same, no_room state full, refl))
    ]
    | inr (inr (e, ahead)) ↦
        rw (e, poll_id)
          (
            refl,
            rollover_to_timestamp-Issues now rand state c fits ahead,
            inl (ahead, unfold rollover_to_timestamp in law.random_of _ _),
          )
  ]
