-- ===== src/Generator.antt =====
-- The generators of crates/ferroid/src/generator/.
pub mod Poll
pub mod Snowflake
pub mod Ulid
pub mod Threads
pub mod Interface
