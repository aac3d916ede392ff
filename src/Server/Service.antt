-- ===== src/Server/Service.antt =====
-- `IdService` of crates/ferroid-tonic-server/src/server/service/handler.rs: the generators that `new`
-- gives to the workers, and the checks of `stream_ids`.
use ferroid.Common.{
  ℕ, ◌+◌, ◌*◌, ◌%◌, ◌^◌, ◌≤◌, ◌<◌, ◌≡◌, ◌≢◌, arith, Bool, ltb, ◌==◌, if◌then◌else◌, ◌∙◌,
  packed_high, packed_low,
}
use ferroid.Id.SnowflakeLayout.{
  twitter, twitter-IsLayout, snowflake_id, machine_id, from_components, machine_id_lem,
  from_components_lem,
}
use ferroid.Generator.Snowflake.Basic
use ferroid.Server.Config.{ServerConfig}

-- The state of the generator of one worker; `+` on `usize` wraps.
unfoldable pub worker_generator : ServerConfig → ℕ → ℕ
worker_generator config worker_id =
    Basic.new (snowflake_id twitter) ((config.shard_offset + worker_id) % 2 ^ 64)

-- What `stream_ids` does with a request: `streaming` starts to feed that many IDs.
pub data StreamIds : Type 0 where
  service_shutdown : StreamIds
  count_zero : StreamIds
  count_too_large : (count max : ℕ) → StreamIds
  streaming : (total_ids : ℕ) → StreamIds

unfoldable pub stream_ids : Bool → ServerConfig → ℕ → StreamIds
stream_ids shutdown config count =
    if shutdown
    then service_shutdown
    else if count == 0
    then count_zero
    else if ltb config.max_allowed_ids count
    then count_too_large count config.max_allowed_ids
    else streaming count

-- The machine number of a new generator.
pub machine_number : (m : ℕ) → machine_id twitter (from_components twitter 0 m 0) ≡ m % 2 ^ 10
machine_number m =
    rw
      (
        machine_id_lem twitter twitter-IsLayout,
        from_components_lem twitter twitter-IsLayout,
        packed_high 12 (0 % 2 ^ 41 * 2 ^ 10 + m % 2 ^ 10) (0 % 2 ^ 12) (omega arith),
      )
      (packed_low 10 (0 % 2 ^ 41) (m % 2 ^ 10) (omega arith) ∙ omega arith)

-- The generators of two workers of one server carry different machine numbers, whatever the shard
-- offset is, also one that the machine field cannot hold.
pub worker_generator_distinct :
    (config : ServerConfig) (i j : ℕ)
    → i < j
    → j < config.num_workers
    → config.num_workers ≤ 1024
    → machine_id twitter (worker_generator config i)
      ≢ machine_id twitter (worker_generator config j)
unfolding worker_generator Basic.new Basic.from_components
worker_generator_distinct config i j lt worker few e = absurd (
    omega (
      arith,
      e,
      machine_number ((config.shard_offset + i) % 2 ^ 64),
      machine_number ((config.shard_offset + j) % 2 ^ 64),
    ))
