-- ===== src/Tests/Threads.antt =====
-- Two threads of the atomic generator that race for one word.
use ferroid.Common.{ℕ, ◌≤◌, ◌≡◌, inl, arith, refl, [], ◌∷◌, All, IsDescending, shl, shr}
use ferroid.Id.Snowflake.{rollover_to_timestamp}
use ferroid.Id.SnowflakeLayout.{
  from_components, timestamp, timestamp_mask, machine_id_mask, sequence_mask, timestamp_shift,
  machine_id_shift, sequence_shift,
}
use ferroid.Generator.Poll.{collect}
use ferroid.Generator.Snowflake.Basic.Run.{FromMachine}
use ferroid.Generator.Snowflake.Atomic.{plan, publish, exchange}
use ferroid.Generator.Threads.{
  System, Local, idle, timed, planned, update, here, later, read, load_and_plan, attempt,
}
use ferroid.Generator.Snowflake.Threads.{Polled, handed-IsDescending}
use ferroid.Tests.Snowflakes.{ids, law, begin, begin-FromMachine, early_enough}

abbrev first : ℕ
first = rollover_to_timestamp ids begin 3

abbrev second : ℕ
second = rollover_to_timestamp ids begin 4

first-plan : plan ids 3 begin ≡ exchange first
unfolding plan from_components timestamp timestamp_mask machine_id_mask sequence_mask
    timestamp_shift machine_id_shift sequence_shift shl shr
first-plan = refl

second-plan : plan ids 4 begin ≡ exchange second
unfolding plan from_components timestamp timestamp_mask machine_id_mask sequence_mask
    timestamp_shift machine_id_shift sequence_shift shl shr
second-plan = refl

-- Both read the clock and load the word, then both try to exchange it; the first to try wins.
abbrev both_planned : ℕ → Local ℕ
both_planned =
    update (update (update (update (λ _. idle) 1 (timed 3)) 2 (timed 4)) 1 (planned begin first)) 2
      (planned begin second)

abbrev one_tried : System ℕ
one_tried = record {
  state = (publish ids begin first begin).1;
  past = begin ∷ [];
  handed = collect (publish ids begin first begin).0 [];
  local = update both_planned 1 idle;
}

abbrev raced : System ℕ
raced = record {
  state = (publish ids begin second one_tried.state).1;
  past = one_tried.state ∷ one_tried.past;
  handed = collect (publish ids begin second one_tried.state).0 one_tried.handed;
  local = update one_tried.local 2 idle;
}

raced-Polled : Polled ids begin raced
raced-Polled =
    later
      (later
        (later
          (later
            (later (later here (read 1 3 (early_enough 3 (omega arith)) refl))
              (read 2 4 (early_enough 4 (omega arith)) refl))
            (load_and_plan 1 3 begin first refl (inl refl) first-plan))
          (load_and_plan 2 4 begin second refl (inl refl) second-plan))
        (attempt 1 begin first refl))
      (attempt 2 begin second refl)

handed-IsDescending_example :
    IsDescending raced.handed
    × All (FromMachine ids 7) raced.handed
    × All (λ x. x ≤ raced.state) raced.handed
handed-IsDescending_example = handed-IsDescending ids law 7 begin-FromMachine raced-Polled
