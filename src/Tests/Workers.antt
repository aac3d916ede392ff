-- ===== src/Tests/Workers.antt =====
-- Requests to a worker of the server.
use ferroid.Common.{
  ℕ, ◌*◌, ◌≤◌, ◌≡◌, refl, ap, arith, List, [], ◌∷◌, ◌++◌, length, replicate, true, shl, shr,
}
use ferroid.Id.Snowflake.{
  rollover_to_timestamp, has_sequence_room, increment_sequence, next_sequence,
}
use ferroid.Id.SnowflakeLayout.{
  twitter, twitter-IsLayout, sequence_mask_lem, from_components, timestamp, machine_id, sequence,
  timestamp_mask, machine_id_mask, sequence_mask, timestamp_shift, machine_id_shift, sequence_shift,
}
use ferroid.Generator.Poll.{ready}
use ferroid.Generator.Snowflake.Basic.{poll_id, issued}
use ferroid.Generator.Snowflake.Basic.Capacity.{length-issued}
use ferroid.Server.Processor.{
  Channel, Handled, handle_stream_request, handle_loop, write_id, panicked,
}
use ferroid.Server.Processor.Packs.{
  issued_one, Serves, packed_ids, open_channel, handle_stream_request-Serves,
}
use ferroid.Server.Processor.Leftover.{Leaves, left, leftover_delivered}
use ferroid.Server.Processor.Closed.{ReturnsEarly, closed-ReturnsEarly, early_return_panics}
use ferroid.Tests.Snowflakes.{ids, law, begin, begin-FromMachine, begin_timestamp, early_enough}

-- Five polls within one unit of time, for a request of three IDs in chunks of two.
abbrev pub readings : List ℕ
readings = replicate 5 9

pub enough : 3 ≤ length (issued ids readings begin)
enough = omega (
  arith,
  length-issued ids law 5 9 begin begin-FromMachine.1 (omega (arith, begin_timestamp))
      (early_enough 9 (omega arith)),
  sequence_mask_lem twitter twitter-IsLayout,
)

handle_stream_request-Serves_example :
    Serves
      (packed_ids 3 (issued ids readings begin))
      (handle_stream_request ids (2 * 8) 3 open_channel readings [] begin)
handle_stream_request-Serves_example =
    handle_stream_request-Serves ids 2 3 readings begin (omega arith) enough

abbrev closed_channel : Channel
closed_channel = record { is_closed = λ _. true; send_fails = λ _. true }

first_ready : (poll_id ids 3 begin).0 ≡ ready (rollover_to_timestamp ids begin 3)
unfolding poll_id from_components timestamp timestamp_mask machine_id_mask sequence_mask
    timestamp_shift machine_id_shift sequence_shift shl shr
first_ready = refl

second_ready :
    (poll_id ids 4 (poll_id ids 3 begin).1).0
    ≡ ready (rollover_to_timestamp ids (poll_id ids 3 begin).1 4)
unfolding poll_id rollover_to_timestamp from_components timestamp machine_id timestamp_mask
    machine_id_mask sequence_mask timestamp_shift machine_id_shift sequence_shift shl shr
second_ready = refl

-- A request of three IDs in chunks of two, whose client is gone when the first chunk is full.
abbrev early : Handled
early = handle_stream_request ids 16 3 closed_channel readings [] begin

closed-ReturnsEarly_example : ReturnsEarly (packed_ids 2 (issued ids readings begin)) early
closed-ReturnsEarly_example =
    closed-ReturnsEarly ids 16 3 1 closed_channel readings [] begin refl refl (omega arith)
      (omega (arith, enough))

early_left : early.generator ≡ (poll_id ids 9 (poll_id ids 9 begin).1).1
unfolding handle_stream_request handle_loop write_id increment_sequence next_sequence
    rollover_to_timestamp machine_id poll_id has_sequence_room from_components timestamp sequence
    timestamp_mask machine_id_mask sequence_mask timestamp_shift machine_id_shift sequence_shift shl
    shr
early_left = refl

next_ready :
    (poll_id ids 10 (poll_id ids 9 (poll_id ids 9 begin).1).1).0
    ≡ ready (rollover_to_timestamp ids (poll_id ids 9 (poll_id ids 9 begin).1).1 10)
unfolding poll_id rollover_to_timestamp has_sequence_room from_components timestamp sequence
    machine_id timestamp_mask machine_id_mask sequence_mask timestamp_shift machine_id_shift
    sequence_shift shl shr
next_ready = refl

next_issued : 1 ≤ length (issued ids (10 ∷ []) early.generator)
next_issued =
    rw early_left
      (omega (arith, ap (λ (t : List ℕ). length t) (issued_one ids 10 [] _ _ next_ready)))

early_return_panics_example :
    (length early.filled ≡ 16)
    × ((handle_stream_request ids 16 5 open_channel (10 ∷ []) early.filled early.generator).exit
        ≡ panicked)
early_return_panics_example =
    early_return_panics ids 16 3 5 closed_channel open_channel readings (10 ∷ []) [] begin
      {h = early} refl closed-ReturnsEarly_example.0 (omega arith) next_issued

-- One ID for each of two requests, of which the first client is gone.
one_left : (left ids 4 1 closed_channel (3 ∷ []) begin).generator ≡ (poll_id ids 3 begin).1
unfolding handle_stream_request poll_id from_components timestamp timestamp_mask machine_id_mask
    sequence_mask timestamp_shift machine_id_shift sequence_shift shl shr
one_left = refl

first_issued : 1 ≤ length (issued ids (3 ∷ []) begin)
first_issued =
    omega (arith, ap (λ (t : List ℕ). length t) (issued_one ids 3 [] begin _ first_ready))

second_issued :
    1 ≤ length (issued ids (4 ∷ []) (left ids 4 1 closed_channel (3 ∷ []) begin).generator)
second_issued =
    rw one_left
      (omega (arith, ap (λ (t : List ℕ). length t) (issued_one ids 4 [] _ _ second_ready)))

leftover_delivered_example :
    Leaves (packed_ids 1 (issued ids (3 ∷ []) begin)) (left ids 4 1 closed_channel (3 ∷ []) begin)
    × Serves
        (packed_ids 1 (issued ids (3 ∷ []) begin)
          ++ packed_ids 1
              (issued ids (4 ∷ []) (left ids 4 1 closed_channel (3 ∷ []) begin).generator))
        (handle_stream_request ids
          (4 * 8)
          1
          open_channel
          (4 ∷ [])
          (left ids 4 1 closed_channel (3 ∷ []) begin).filled
          (left ids 4 1 closed_channel (3 ∷ []) begin).generator)
leftover_delivered_example =
    leftover_delivered ids 4 1 1 closed_channel (3 ∷ []) (4 ∷ []) begin refl (omega arith)
      first_issued second_issued
