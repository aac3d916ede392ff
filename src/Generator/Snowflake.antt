-- ===== src/Generator/Snowflake.antt =====
-- The Snowflake generators of crates/ferroid/src/generator/snowflake.
pub mod Basic
pub mod Lock
pub mod Parking
pub mod Atomic
pub mod Threads
