-- ===== src/Id/SnowflakeLayout.antt =====
-- What `define_snowflake_id!` of crates/ferroid/src/id/snowflake.rs expands to, for any layout,
-- and the four layouts of that file.
-- `debug_assert!` has no effect on the value: `in_range` is what the three of them test.
mod Defs
mod Fields
mod Lawful
mod RoundTrip
mod Known
unfoldable pub use Defs.*
pub use Fields.*
pub use Lawful.*
pub use RoundTrip.*
pub use Known.*
