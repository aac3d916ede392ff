-- ===== src/Tests/Snowflakes.antt =====
-- The Snowflake generators, on machine 7 of the layout of `SnowflakeTwitterId`.
use ferroid.Common.{
  ℕ, ◌+◌, ◌^◌, ◌≤◌, ◌<◌, ◌≡◌, arith, List, [], ◌∷◌, ◌++◌, All, IsAscending, length, replicate, min,
  some,
}
use ferroid.Id.Snowflake.{SnowflakeId, IsLawful}
use ferroid.Id.SnowflakeLayout.{
  twitter, twitter-IsLayout, snowflake_id, snowflake_id-IsLawful, from_components,
  timestamp_mask_lem, machine_id_mask_lem,
}
use ferroid.Generator.Poll.{ready}
use ferroid.Generator.Snowflake.Basic
use ferroid.Generator.Snowflake.Basic.Step
use ferroid.Generator.Snowflake.Basic.Run
use ferroid.Generator.Snowflake.Basic.Loop
use ferroid.Generator.Snowflake.Basic.Capacity

abbrev pub ids : SnowflakeId
ids = snowflake_id twitter

pub law : IsLawful ids
law = snowflake_id-IsLawful twitter twitter-IsLayout

abbrev pub begin : ℕ
begin = from_components twitter 0 7 0

pub begin-FromMachine : Run.FromMachine ids 7 begin
begin-FromMachine = (
  law.machine_id_of 0 7 0 (omega (arith, machine_id_mask_lem twitter twitter-IsLayout)),
  law.canonical 0 7 0,
)

pub begin_timestamp : ids.timestamp begin ≡ 0
begin_timestamp = law.timestamp_of 0 7 0 (omega arith)

pub early_enough : (now : ℕ) → now < 1000 → now ≤ ids.max_timestamp
early_enough now h = omega (arith, timestamp_mask_lem twitter twitter-IsLayout)

-- The clock jumps back after the second reading.
abbrev readings : List ℕ
readings = 3 ∷ 5 ∷ 4 ∷ 5 ∷ []

readings_fit : All (λ now. now ≤ ids.max_timestamp) readings
readings_fit = (
  early_enough 3 (omega arith),
  (
    early_enough 5 (omega arith),
    (early_enough 4 (omega arith), (early_enough 5 (omega arith), tt)),
  ),
)

issued-IsAscending_example :
    IsAscending (Basic.issued ids readings begin)
    × All (λ id. begin < id) (Basic.issued ids readings begin)
    × All (Run.FromMachine ids 7) (Basic.issued ids readings begin)
issued-IsAscending_example =
    Run.issued-IsAscending ids law readings begin 7 begin-FromMachine readings_fit

poll_id-PollSpec_example :
    Step.PollSpec ids 3 begin (Basic.poll_id ids 3 begin).0 (Basic.poll_id ids 3 begin).1
poll_id-PollSpec_example =
    Step.poll_id-PollSpec ids law 3 begin begin-FromMachine.1 (early_enough 3 (omega arith))

next_id_total_example :
    (n : Basic.Next) × (Basic.next_id ids ((0 ∷ []) ++ 4 ∷ []) begin ≡ some n)
    × Loop.NextSpec ids begin 7 n
next_id_total_example =
    Loop.next_id_total ids law (0 ∷ []) [] 4 begin 7 begin-FromMachine
      (early_enough 0 (omega arith), tt) (early_enough 4 (omega arith))
      (omega (arith, begin_timestamp))

length-issued_example :
    length (Basic.issued ids (replicate 5000 9) begin) ≡ min 5000 (ids.max_sequence + 1)
length-issued_example =
    Capacity.length-issued ids law 5000 9 begin begin-FromMachine.1 (omega (arith, begin_timestamp))
      (early_enough 9 (omega arith))

poll_id_repeats_example :
    (id : ℕ) × (Basic.poll_id ids (2 ^ 41) begin ≡ (ready id, id))
    × (Basic.poll_id ids (2 ^ 41) id ≡ (ready id, id))
poll_id_repeats_example =
    Capacity.poll_id_repeats ids law (2 ^ 41) begin
      (omega (arith, timestamp_mask_lem twitter twitter-IsLayout))
