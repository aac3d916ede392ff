-- ===== src/Tests/UlidThreads.antt =====
-- Two threads of the atomic monotonic ULID generator that race for one word.
use ferroid.Common.{ℕ, ◌≤◌, ◌≡◌, inl, arith, refl, [], ◌∷◌, All, IsDescending, shl, shr}
use ferroid.Id.Ulid.{IsCanonical, rollover_to_timestamp}
use ferroid.Id.UlidLayout.{
  from_components, timestamp, timestamp_mask, random_mask, timestamp_shift, random_shift,
}
use ferroid.Generator.Poll.{collect}
use ferroid.Generator.Snowflake.Atomic.{exchange}
use ferroid.Generator.Ulid.BasicMono.{Reading}
use ferroid.Generator.Ulid.AtomicMono.{plan, publish}
use ferroid.Generator.Threads.{
  System, Local, idle, timed, planned, update, here, later, read, load_and_plan, attempt,
}
use ferroid.Generator.Ulid.Threads.{Polled, mono_handed-IsDescending}
use ferroid.Tests.Ulids.{ids, law, begin, begin-IsCanonical, early_enough, reading}

abbrev first : ℕ
first = rollover_to_timestamp ids begin 3 42

abbrev second : ℕ
second = rollover_to_timestamp ids begin 3 7

first-plan : plan ids 3 42 begin ≡ exchange first
unfolding plan from_components timestamp timestamp_mask random_mask timestamp_shift random_shift shl
    shr
first-plan = refl

second-plan : plan ids 3 7 begin ≡ exchange second
unfolding plan from_components timestamp timestamp_mask random_mask timestamp_shift random_shift shl
    shr
second-plan = refl

-- Both read and load, then both try to exchange the word; the first to try wins.
abbrev both_planned : ℕ → Local Reading
both_planned =
    update
      (update (update (update (λ _. idle) 1 (timed (reading 3 42))) 2 (timed (reading 3 7))) 1
        (planned begin first))
      2 (planned begin second)

abbrev one_tried : System Reading
one_tried = record {
  state = (publish ids begin first begin).1;
  past = begin ∷ [];
  handed = collect (publish ids begin first begin).0 [];
  local = update both_planned 1 idle;
}

abbrev raced : System Reading
raced = record {
  state = (publish ids begin second one_tried.state).1;
  past = one_tried.state ∷ one_tried.past;
  handed = collect (publish ids begin second one_tried.state).0 one_tried.handed;
  local = update one_tried.local 2 idle;
}

raced-Polled : Polled ids begin raced
raced-Polled =
    later
      (later
        (later
          (later
            (later (later here (read 1 (reading 3 42) (early_enough 3 (omega arith)) refl))
              (read 2 (reading 3 7) (early_enough 3 (omega arith)) refl))
            (load_and_plan 1 (reading 3 42) begin first refl (inl refl) first-plan))
          (load_and_plan 2 (reading 3 7) begin second refl (inl refl) second-plan))
        (attempt 1 begin first refl))
      (attempt 2 begin second refl)

mono_handed-IsDescending_example :
    IsDescending raced.handed
    × All (IsCanonical ids) raced.handed
    × All (λ x. x ≤ raced.state) raced.handed
mono_handed-IsDescending_example = mono_handed-IsDescending ids law begin-IsCanonical raced-Polled
