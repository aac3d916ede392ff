-- ===== src/Server/Config.antt =====
-- `ServerConfig` of crates/ferroid-tonic-server/src/server/config.rs and its validation; `usize` has
-- 64 bits.
use ferroid.Common.{
  ℕ, ◌+◌, ◌*◌, ◌^◌, ◌≤◌, ◌<◌, ◌≡◌, refl, arith, Bool, List, ltb, ◌==◌, if◌then◌else◌, Bool-cases,
  inl, inr,
}
use ferroid.Id.SnowflakeLayout.{twitter, twitter-IsLayout, machine_id_mask, machine_id_mask_lem}

pub record CliArgs : Type 0 where
  pub max_allowed_ids : ℕ
  pub shard_offset : ℕ
  pub num_workers : ℕ
  pub ids_per_chunk : ℕ
  pub stream_buffer_size : ℕ
  pub server_addr : List ℕ  -- its bytes
  pub uds : Bool
  pub shutdown_timeout : ℕ

pub record ServerConfig : Type 0 where
  pub max_allowed_ids : ℕ
  pub shard_offset : ℕ
  pub num_workers : ℕ
  pub ids_per_chunk : ℕ
  pub stream_buffer_size : ℕ
  pub chunk_bytes : ℕ
  pub server_addr : List ℕ
  pub uds : Bool
  pub shutdown_timeout : ℕ

pub data Configured : Type 0 where
  accepted : ServerConfig → Configured
  no_workers : Configured
  too_many_workers : (num_workers max : ℕ) → Configured
  chunk_bytes_overflow : Configured

-- `size_of::<u64>()`
abbrev pub snowflake_id_size : ℕ
snowflake_id_size = 8

-- The configuration that passes the checks.
abbrev configured : CliArgs → ServerConfig
configured args = record {
  max_allowed_ids = args.max_allowed_ids;
  shard_offset = args.shard_offset;
  num_workers = args.num_workers;
  ids_per_chunk = args.ids_per_chunk;
  stream_buffer_size = args.stream_buffer_size;
  chunk_bytes = args.ids_per_chunk * snowflake_id_size;
  server_addr = args.server_addr;
  uds = args.uds;
  shutdown_timeout = args.shutdown_timeout;
}

unfoldable pub try_from : CliArgs → Configured
try_from args =
    let max_machine_id = machine_id_mask twitter + 1 in
    if args.num_workers == 0
    then no_workers
    else if ltb max_machine_id args.num_workers
    then too_many_workers args.num_workers max_machine_id
    else if ltb (args.ids_per_chunk * snowflake_id_size) (2 ^ 64)
    then accepted (configured args)
    else chunk_bytes_overflow

abbrev pub TryFromSpec : CliArgs → Configured → Type 0
TryFromSpec args (accepted c) =
    (0 < args.num_workers)
    × (args.num_workers ≤ 1024)
    × (args.ids_per_chunk * 8 < 2 ^ 64)
    × (c.num_workers ≡ args.num_workers)
    × (c.shard_offset ≡ args.shard_offset)
    × (c.ids_per_chunk ≡ args.ids_per_chunk)
    × (c.chunk_bytes ≡ c.ids_per_chunk * 8)
    × (c.max_allowed_ids ≡ args.max_allowed_ids)
    × (c.stream_buffer_size ≡ args.stream_buffer_size)
    × (c.server_addr ≡ args.server_addr)
    × (c.uds ≡ args.uds)
    × (c.shutdown_timeout ≡ args.shutdown_timeout)
TryFromSpec args no_workers = args.num_workers ≡ 0
TryFromSpec args (too_many_workers n max) = (n ≡ args.num_workers) × (max ≡ 1024) × (1024 < n)
TryFromSpec args chunk_bytes_overflow = 2 ^ 64 ≤ args.ids_per_chunk * 8

-- Arguments are accepted with 1 to 1024 workers and a chunk whose bytes `usize` can count, and then each of
-- them is kept in the field of its name, with the bytes of a chunk eight times its IDs; each refusal names
-- a limit that is broken.
pub try_from-TryFromSpec : (args : CliArgs) → TryFromSpec args (try_from args)
unfolding try_from
try_from-TryFromSpec args = elim (Bool-cases (args.num_workers == 0)) [
  | inl none ↦ rw (none, try_from) (ground arith)
  | inr some ↦ elim (Bool-cases (ltb (machine_id_mask twitter + 1) args.num_workers)) [
    | inl many ↦ rw (some, many, try_from) (refl, limit, ground (arith, limit))
    | inr few ↦ elim (Bool-cases (ltb (args.ids_per_chunk * 8) (2 ^ 64))) [
      | inl fits ↦
          rw (some, few, fits, try_from)
            (
              ground arith,
              ground (arith, limit),
              ground arith,
              refl,
              refl,
              refl,
              refl,
              refl,
              refl,
              refl,
              refl,
              refl,
            )
      | inr wide ↦ rw (some, few, wide, try_from) (ground arith)
    ]
  ]
]
  where
    limit : machine_id_mask twitter + 1 ≡ 1024
    limit = omega (arith, machine_id_mask_lem twitter twitter-IsLayout)
