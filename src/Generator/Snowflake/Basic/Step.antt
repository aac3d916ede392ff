-- ===== src/Generator/Snowflake/Basic/Step.antt =====
-- One poll of the basic generator, on every branch.
use native.Mathlib.Nat.{mod-eq_of_lt}
use ferroid.Common.{
  ℕ, ◌+◌, ◌≤◌, ◌<◌, ◌≡◌, ◌⊎◌, inl, inr, refl, ap, sym, arith, compare_cases, Bool-cases, true,
  false, ltb→lt,
}
use mathlib.Core.Path.{subst}
use ferroid.Id.Snowflake.{
  SnowflakeId, IsLawful, IsCanonical, has_sequence_room, increment_sequence, rollover_to_timestamp,
}
use ferroid.Generator.Poll.{Poll, ready, pending}
use ferroid.Generator.Snowflake.Basic.{poll_id}

module _ (o : SnowflakeId) where
  -- What a poll that hands out `id` at the reading `now` has done to the state.
  pub record Issues (now state id : ℕ) : Type 0 where
    pub after : state < id
    pub canonical : IsCanonical o id
    pub stamped : o.timestamp id ≡ now
    pub same_machine : o.machine_id id ≡ o.machine_id state

  -- An ID is handed out where the clock is ahead, with sequence number 0, or the sequence has room,
  -- with the next number; it becomes the state.
  -- Else the state stays, and the wait is the time by which the clock is behind, or one unit.
  abbrev pub PollSpec : ℕ → ℕ → Poll → ℕ → Type 0
  PollSpec now state (ready id) state' =
      (state' ≡ id)
      × Issues now state id
      × ((o.timestamp state < now) × (o.sequence id ≡ 0)
          ⊎ (now ≡ o.timestamp state)
            × (o.sequence state < o.max_sequence)
            × (o.sequence id ≡ o.sequence state + 1))
  PollSpec now state (pending yield_for) state' =
      (state' ≡ state)
      × (0 < yield_for)
      × ((now + yield_for ≡ o.timestamp state)
          ⊎ (now ≡ o.timestamp state) × (o.sequence state ≡ o.max_sequence) × (yield_for ≡ 1))

module _ (o : SnowflakeId) (law : IsLawful o) where
  -- Below the last sequence number the increment does not wrap.
  increment_sequence_lem :
      (state : ℕ)
      → o.sequence state < o.max_sequence
      → increment_sequence o state
        ≡ o.from_components (o.timestamp state) (o.machine_id state) (o.sequence state + 1)
  unfolding increment_sequence
  increment_sequence_lem state room =
      ap (o.from_components (o.timestamp state) (o.machine_id state))
        (mod-eq_of_lt (omega (arith, law.sequence_fits)))

  above :
      {state : ℕ} (id : ℕ)
      → IsCanonical o state
      → o.from_components (o.timestamp state) (o.machine_id state) (o.sequence state) < id
      → state < id
  above id c h = rw (law.rebuilt _ c) at h

  pub increment_sequence-Issues :
      (state : ℕ)
      → IsCanonical o state
      → o.sequence state < o.max_sequence
      → Issues o (o.timestamp state) state (increment_sequence o state)
  increment_sequence-Issues state c room = rw (increment_sequence_lem state room) (record {
    after = above _ c (law.next _ _ _ _ (omega arith) (omega arith));
    canonical = law.canonical _ _ _;
    stamped = law.timestamp_of _ _ _ (law.timestamp_le state);
    same_machine = law.machine_id_of _ _ _ (law.machine_id_le state);
  })

  pub rollover_to_timestamp-Issues :
      (now state : ℕ)
      → IsCanonical o state
      → now ≤ o.max_timestamp
      → o.timestamp state < now
      → Issues o now state (rollover_to_timestamp o state now)
  unfolding rollover_to_timestamp
  rollover_to_timestamp-Issues now state c fits later = record {
    after = above _ c (law.later _ _ _ _ _ _ later fits);
    canonical = law.canonical _ _ _;
    stamped = law.timestamp_of _ _ _ fits;
    same_machine = law.machine_id_of _ _ _ (law.machine_id_le state);
  }

  next_number :
      (state : ℕ)
      → o.sequence state < o.max_sequence
      → o.sequence (increment_sequence o state) ≡ o.sequence state + 1
  next_number state room =
      rw (increment_sequence_lem state room) (law.sequence_of _ _ _ (omega arith))

  room_left : (state : ℕ) → has_sequence_room o state ≡ true → o.sequence state < o.max_sequence
  unfolding has_sequence_room
  room_left state room = ltb→lt _ _ room

  no_room : (state : ℕ) → has_sequence_room o state ≡ false → o.sequence state ≡ o.max_sequence
  unfolding has_sequence_room
  no_room state full = ground (arith, law.sequence_le state)

  -- A poll at a reading that the timestamp field can hold meets its specification.
  pub poll_id-PollSpec :
      (now state : ℕ)
      → IsCanonical o state
      → now ≤ o.max_timestamp
      → PollSpec o now state (poll_id o now state).0 (poll_id o now state).1
  unfolding poll_id
  poll_id-PollSpec now state c fits = elim (compare_cases now (o.timestamp state)) [
    | inl (e, behind) ↦ rw (e, poll_id) (refl, omega arith, inl (omega arith))
    | inr (inl (e, same)) ↦ elim (Bool-cases (has_sequence_room o state)) [
      | inl room ↦
          rw (e, room, poll_id)
            (
              refl,
              subst (λ t. Issues o t state (increment_sequence o state)) (sym same)
                  (increment_sequence-Issues state c (room_left state room)),
              inr (same, room_left state room, next_number state (room_left state room)),
            )
      | inr full ↦ rw (e, full, poll_id) (refl, omega arith, inr (same, no_room state full, refl))
    ]
    | inr (inr (e, ahead)) ↦
        rw (e, poll_id)
          (
            refl,
            rollover_to_timestamp-Issues now state c fits ahead,
            inl (ahead, unfold rollover_to_timestamp in law.sequence_of _ _ 0 (omega arith)),
          )
  ]
