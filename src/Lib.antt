-- ===== src/Lib.antt =====
-- Verification of ferroid, a library of time-ordered unique IDs (Snowflake IDs and ULIDs).
--
-- The program has ID types that pack a timestamp and other fields into one integer, generators that hand
-- out IDs in ascending order from a clock, and a text form in Crockford's base 32. The generators use the
-- ID types through the traits `SnowflakeId` and `UlidId`; the text form encodes the raw integer and asks
-- the ID type whether a decoded one is valid.
--
-- - Common: names and lemmas that all share; `&`, `|`, shifts and masks of words as arithmetic.
-- - Id (crates/ferroid/src/id/snowflake.rs, ulid.rs): an ID is its raw word, a natural number below 2 ^
--   bits. Id.Snowflake and Id.Ulid are the traits, as records of operations with their provided methods
--   and the laws that the generators rely on. Id.SnowflakeLayout and Id.UlidLayout are what the macros
--   `define_snowflake_id!` and `define_ulid!` expand to, for any field widths that pass the compile-time
--   assertion, with the proof that they meet the laws; Known holds the layouts that the library itself
--   defines.
-- - Generator (crates/ferroid/src/generator/): Generator.Poll has `Poll` and `Error` of status.rs and
--   error.rs. Generator.Snowflake.Basic, .Lock and .Atomic are snowflake/basic.rs, lock.rs and atomic.rs;
--   Generator.Ulid.Basic, .BasicMono, .LockMono and .AtomicMono are ulid/basic.rs, basic_mono.rs,
--   lock_mono.rs and atomic_mono.rs. `poll_id` and the other functions bear the names of the source, take
--   the state (the last ID) and return the new one. The clock and the source of randomness are parameters:
--   each poll is handed the reading that it takes. A loop of `next_id` runs over the list of the readings
--   that it will take, and returns `none` if that list ends first; one reading past the timestamp of the
--   state is enough. Generator.Threads has any number of threads on one atomic generator as a step
--   relation, in which a relaxed load may return any value that the word has held; Snowflake.Threads and
--   Ulid.Threads are that of the two atomic generators. Ulid.ThreadLocal is thread_local.rs, for one
--   thread. Generator.Snowflake.Parking and Generator.Ulid.Parking are the locked generators in a build
--   with `parking-lot`; Generator.Interface has the traits of snowflake/interface.rs and ulid/interface.rs
--   as a record of operations, with all generators as its instances.
-- - Base32 (crates/ferroid/src/base32/): Base32.Crockford is crockford.rs, with the two tables as their
--   initialisers build them, the encoder with its accumulator of 64 bits (the width of `usize`) and the
--   decoder by chunks of four bytes; Base32.Interface is interface.rs with `encode` and `decode` of
--   snowflake.rs and ulid.rs, Base32.Formatter the two formatters of snowflake.rs with what the macro of
--   crates/ferroid/src/id/snowflake.rs does with them and with strings; Base32.Ulid has both formatters of
--   base32/ulid.rs and the strings of crates/ferroid/src/id/ulid.rs. The inner loop of the encoder runs on
--   as much fuel as there are bits, of which each round takes five.
-- - Serde (crates/ferroid/src/serde/): the two adapters, with the data format as a parameter of which is
--   asked that it reads back what it has written.
-- - Server (crates/ferroid-tonic-server/src/server/): Server.Config is config.rs, Server.Feed the loop of
--   streaming/coordinator.rs that splits a request into chunks, on fuel for its rounds (as many as the
--   request has IDs are enough), with what becomes of each chunk as a parameter; Server.Processor is
--   streaming/processor.rs, the polls and the buffer of a worker, with the channel to the client as a
--   parameter; Server.Service has the generators and the checks of service/handler.rs. Server.Pool is
--   pool/worker.rs and pool/manager.rs, with the errors of crates/ferroid-tonic-core/src/common/error.rs:
--   a worker is a loop over the queue of its requests, the pool the list of the queues with a counter, and
--   the shutdown one step on it. Server.Stream puts these together, for one request at a time: the loop of
--   the coordinator on the pool, whose workers serve the chunks in turn, and the server as
--   `IdService::new` starts it; it runs over the list of the rounds, each with its channel and readings.
--   Server.Streams has any number of requests, the workers and the shutdown as steps that interleave in
--   any order. There a worker serves a chunk in one step, since no other task sees its buffer and its
--   generator; channels and clients may do anything meanwhile.
-- - Postgres (crates/pg-ferroid/src/lib.rs): Postgres.Ulid is the column type, sixteen bytes with the
--   derived order; Postgres.Signed is Rust's `i64` with its checked operations; Postgres.Sql has the SQL
--   functions and casts, whose reports are values, Postgres.Gen the two that generate, and Postgres.Datum
--   the passing by reference, over a memory of bytes. The message functions and the allocator of the
--   server, and the times of pgrx, are parameters, with what their documentation says of them as
--   hypotheses.
-- - Time (crates/ferroid/src/time/): Time.MonoClock is mono_clock.rs with the epochs of interface.rs. The
--   ticker and one reader are a step relation over the time of the machine, which passes in any steps; a
--   relaxed load may return an old value, but none older than that thread has read before.
-- - Futures (crates/ferroid/src/futures/, crates/ferroid/src/id/to_u64.rs): the loop of polls and sleeps,
--   for any generator, over the list of the readings, with the sleeps listed. Futures.Traits has the
--   extension traits over the instances of Generator.Interface, with the world of a runtime as a
--   parameter, and Tokio and Smol below it are futures/runtime/tokio/ and futures/runtime/smol/.
-- - Tests: the theorems at concrete inputs.
--
-- Arithmetic is that of a release build: `+` on the integer type of an ID wraps, and `debug_assert!` has
-- no effect; theorems that need its condition have it as a hypothesis.
--
-- Not modelled: the sleeps of the asynchronous runtimes, the random numbers of the rand crate and the
-- system clock, which are parameters; hashes; of the tonic server the stream of the RPC library, the
-- metrics and the set-up; of the PostgreSQL extension the SQL text.
pub mod Common
pub mod Id
pub mod Generator
pub mod Base32
pub mod Serde
pub mod Time
pub mod Futures
pub mod Server
pub mod Postgres
pub mod Tests
