-- ===== src/Tests/Tasks.antt =====
-- Requests to the server, interleaved with its shutdown.
use ferroid.Common.{
  ℕ, zero, suc, ◌^◌, ◌<◌, ◌≡◌, ◌≢◌, ◌↔◌, refl, arith, true, false, List, [], map, All,
}
use ferroid.Id.SnowflakeLayout.{twitter, snowflake_id, from_components}
use ferroid.Generator.Snowflake.Basic
use ferroid.Generator.Snowflake.Basic.Run.{FromMachine}
use ferroid.Server.Processor.{still_polling}
use ferroid.Server.Processor.Packs.{flat, open_channel, handle_stream_request-Serves}
use ferroid.Server.Pool.Worker.Serves.{bytes_of}
use ferroid.Server.Service.{worker_generator, stream_ids}
use ferroid.Server.Stream.Started.{new_tasks, machine_of}
use ferroid.Server.Stream.Unique.{IsDistinct}
use ferroid.Server.Streams.{
  System, Reach, check, accept, enter, choose, send, serve, handled, checks, enters, chooses, sends,
  serves, here, later, leave, notify, checked, phase_of, leaves, shuts_down, cancels, notifies,
}
use ferroid.Server.Streams.Counted.{running, in_flight, streams_inflight-running}
use ferroid.Server.Streams.Queued.{IsMatched}
use ferroid.Server.Streams.Waiting.{Reach-IsMatched}
use ferroid.Server.Streams.Quiet.{drained-IsQuiet}
use ferroid.Server.Streams.Chunks.{chunks_of}
use ferroid.Server.Streams.Started.{new_system, new_system-IsDistinct}
use ferroid.Tests.Snowflakes.{ids}
use ferroid.Tests.Workers.{readings}
use ferroid.Tests.Pool.{All-fit}
use ferroid.Tests.Streams.{config, enough_of}

-- A request of three IDs, up to the choice of its worker.
abbrev chosen : System
chosen = choose 3 0 3 (enter 0 3 (check config 3 (new_system config)))

abbrev queued : System
queued = send 0 0 3 0 chosen

abbrev served : System
served = serve ids 24 0 0 3 [] open_channel readings (λ k. false) queued

chosen_reached : Reach ids config (new_system config) chosen
unfolding new_system check accept stream_ids enter
chosen_reached =
    later (later (later here (checks 3)) (enters 0 3 refl)) (chooses 0 3 refl (omega arith))

queued_reached : Reach ids config (new_system config) queued
unfolding new_system check accept stream_ids enter choose
queued_reached = later chosen_reached (sends 0 0 3 0 refl (λ e. omega arith))

polled_enough : (handled ids 24 queued 0 3 open_channel readings).exit ≢ still_polling
unfolding new_system check accept stream_ids enter choose send new_tasks worker_generator Basic.new
    Basic.from_components
polled_enough e =
    cc
      (handle_stream_request-Serves ids 3 3 readings (from_components twitter 0 7 0) (omega arith)
        (enough_of 7)).0

served_reached : Reach ids config (new_system config) served
unfolding new_system check accept stream_ids enter choose send
served_reached =
    later queued_reached
      (serves 0 0 3 [] open_channel readings (λ k. false) refl All-fit polled_enough)

new_system-IsDistinct_example :
    (chunks : List (List ℕ)) × (chunks_of served.delivered ≡ map bytes_of chunks)
    × IsDistinct (flat chunks)
    × All
        (λ id.
          (i : ℕ) × (i < config.num_workers)
          × FromMachine (snowflake_id twitter) (machine_of config i) id)
        (flat chunks)
new_system-IsDistinct_example =
    new_system-IsDistinct config (omega arith) (omega arith) served_reached

begun : (new_system config).streams ≡ []
unfolding new_system
begun = refl

begun_count : (new_system config).streams_inflight ≡ 0
unfolding new_system
begun_count = refl

streams_inflight-running_example :
    (queued.streams_inflight ≡ running queued.streams)
    × ((queued.streams_inflight ≡ 0) ↔ All (λ p. in_flight p ≡ 0) queued.streams)
streams_inflight-running_example =
    streams_inflight-running ids config begun begun_count queued_reached few
  where
    few : running queued.streams < 2 ^ 64
    few = unfold new_system check accept stream_ids enter choose send in omega arith

start-IsMatched : IsMatched (new_system config)
unfolding new_system
start-IsMatched i = refl

Reach-IsMatched_example : IsMatched queued
Reach-IsMatched_example = Reach-IsMatched ids config start-IsMatched queued_reached

-- A request that the shutdown cuts short.
abbrev entered : System
entered = enter 0 3 (check config 3 (new_system config))

abbrev cut : System
cut = choose 3 0 3 (record entered { global_shutdown = true; cancelled = true })

abbrev left : System
left = leave 0 cut

left_reached : Reach ids config (new_system config) left
unfolding new_system check accept stream_ids enter choose
left_reached =
    later
      (later
        (later (later (later (later here (checks 3)) (enters 0 3 refl)) shuts_down) (cancels refl))
        (chooses 0 3 refl (omega arith)))
      (leaves 0 false refl)

told : Reach ids config left (notify 1 left)
unfolding new_system check accept stream_ids enter choose leave
told = later here (notifies 1 refl refl (omega arith))

left_down : left.global_shutdown ≡ true
unfolding new_system check accept stream_ids enter choose leave
left_down = refl

left_drained : left.streams_inflight ≡ 0
unfolding new_system check accept stream_ids enter choose leave
left_drained = refl

left_few : running left.streams < 2 ^ 64
unfolding new_system check accept stream_ids enter choose leave
left_few = omega arith

left_unchecked : (i total_ids : ℕ) → phase_of left i ≢ checked total_ids
unfolding new_system check accept stream_ids enter choose leave
left_unchecked zero total_ids e = absurd (cc)
left_unchecked (suc i) total_ids e = absurd (cc)

drained-IsQuiet_example :
    ((notify 1 left).streams ≡ left.streams)
    × ((notify 1 left).tasks ≡ left.tasks)
    × ((notify 1 left).delivered ≡ left.delivered)
drained-IsQuiet_example =
    drained-IsQuiet ids config begun begun_count start-IsMatched left_reached left_few left_down
      left_drained left_unchecked told
