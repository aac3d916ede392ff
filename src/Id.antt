-- ===== src/Id.antt =====
-- The ID types, crates/ferroid/src/id/: the traits that the generators use, and what the macros
-- define.
pub mod Snowflake
pub mod SnowflakeLayout
pub mod Ulid
pub mod UlidLayout
