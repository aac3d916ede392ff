-- ===== src/Generator/Snowflake/Basic/Capacity.antt =====
-- How many IDs one clock reading yields, and what happens behind the last timestamp.
use ferroid.Common.{
  ℕ, zero, suc, min, ◌+◌, ◌-◌, ◌≤◌, ◌<◌, ◌≡◌, inl, inr, arith, ap, ◌∙◌, length, replicate,
  compare_cases,
}
use ferroid.Id.Snowflake.{SnowflakeId, IsLawful, IsCanonical, rollover_to_timestamp}
use ferroid.Generator.Poll.{Poll, ready, pending, collect}
use ferroid.Generator.Snowflake.Basic.{poll_id, issued}
use ferroid.Generator.Snowflake.Basic.Step.{PollSpec, poll_id-PollSpec}

module _ (o : SnowflakeId) (law : IsLawful o) where
  same_tick_step :
      (k now state : ℕ) (p : Poll) (state' : ℕ)
      → o.timestamp state ≡ now
      → IsCanonical o state
      → PollSpec o now state p state'
      → (IsCanonical o state'
          → o.timestamp state' ≡ now
          → length (issued o (replicate k now) state') ≡ min k (o.max_sequence - o.sequence state'))
      → length (collect p (issued o (replicate k now) state'))
        ≡ min (suc k) (o.max_sequence - o.sequence state)
  same_tick_step k now state (ready id) state' at c (same, issue, inl (ahead, z)) ih =
      absurd (omega arith)
  same_tick_step k now state (ready id) state' at c (same, issue, inr (_, room, number)) ih =
      omega (arith, ih (rw same issue.canonical) (rw same issue.stamped), ap o.sequence same)
  same_tick_step k now state (pending d) state' at c (same, waits, inl behind) ih =
      absurd (omega arith)
  same_tick_step k now state (pending d) state' at c (same, waits, inr (_, full, _)) ih =
      omega (arith, ih (rw same c) (rw same at), ap o.sequence same)

  -- With the clock at the state's own timestamp: one ID for each sequence number that is left.
  same_tick :
      (k now state : ℕ)
      → IsCanonical o state
      → now ≤ o.max_timestamp
      → o.timestamp state ≡ now
      → length (issued o (replicate k now) state) ≡ min k (o.max_sequence - o.sequence state)
  unfolding issued
  same_tick zero now state c fit at = omega arith
  same_tick (suc k) now state c fit at =
      let state' = (poll_id o now state).1 in
      same_tick_step k now state (poll_id o now state).0 state' at c
        (poll_id-PollSpec o law now state c fit) (λ c' at'. same_tick k now state' c' fit at')

  new_tick_step :
      (k now state : ℕ) (p : Poll) (state' : ℕ)
      → o.timestamp state < now
      → now ≤ o.max_timestamp
      → PollSpec o now state p state'
      → length (collect p (issued o (replicate k now) state')) ≡ min (suc k) (o.max_sequence + 1)
  new_tick_step k now state (ready id) state' ahead fit (same, issue, inl (_, z)) = omega (
    arith,
    same_tick k now state' (rw same issue.canonical) fit (rw same issue.stamped),
    ap o.sequence same,
  )
  new_tick_step k now state (ready id) state' ahead fit (same, issue, inr (at, _, _)) =
      absurd (omega arith)
  new_tick_step k now state (pending d) state' ahead fit (same, waits, w) = absurd (omega arith)

  -- From a valid state behind the clock, `k` polls at one reading that the timestamp field can hold
  -- hand out `min k (max_sequence + 1)`
  -- IDs: the reading is good for exactly `max_sequence + 1` of them.
  pub length-issued :
      (k now state : ℕ)
      → IsCanonical o state
      → o.timestamp state < now
      → now ≤ o.max_timestamp
      → length (issued o (replicate k now) state) ≡ min k (o.max_sequence + 1)
  unfolding issued
  length-issued zero now state c ahead fit = omega arith
  length-issued (suc k) now state c ahead fit =
      new_tick_step k now state (poll_id o now state).0 (poll_id o now state).1 ahead fit
        (poll_id-PollSpec o law now state c fit)

  -- The clock is past every timestamp that the field can hold.
  rolls_over :
      (now state : ℕ)
      → o.max_timestamp < now
      → poll_id o now state
        ≡ (ready (rollover_to_timestamp o state now), rollover_to_timestamp o state now)
  unfolding poll_id
  rolls_over now state past = elim (compare_cases now (o.timestamp state)) [
    | inl (e, behind) ↦ absurd (omega (arith, law.timestamp_le state))
    | inr (inl (e, same)) ↦ absurd (omega (arith, law.timestamp_le state))
    | inr (inr (e, ahead)) ↦ rw (e, poll_id)
  ]

  rollover-rollover :
      (now state : ℕ)
      → rollover_to_timestamp o (rollover_to_timestamp o state now) now
        ≡ rollover_to_timestamp o state now
  unfolding rollover_to_timestamp
  rollover-rollover now state =
      ap (λ m. o.from_components now m 0) (law.machine_id_of _ _ _ (law.machine_id_le state))

  -- Without the debug assertion: once the clock is past the last timestamp of the layout, two polls
  -- at one reading hand out the same ID, whatever the state.
  pub poll_id_repeats :
      (now state : ℕ)
      → o.max_timestamp < now
      → (id : ℕ) × (poll_id o now state ≡ (ready id, id)) × (poll_id o now id ≡ (ready id, id))
  poll_id_repeats now state past = (
    rollover_to_timestamp o state now,
    rolls_over now state past,
    rolls_over now _ past ∙ rw (rollover-rollover now state),
  )
