-- ===== src/Id/UlidLayout.antt =====
-- What `define_ulid!` of crates/ferroid/src/id/ulid.rs expands to, for any layout, and the type
-- `ULID` of that file.
mod Defs
mod Fields
mod Lawful
mod RoundTrip
mod Known
mod Times
unfoldable pub use Defs.*
pub use Fields.*
pub use Lawful.*
pub use RoundTrip.*
pub use Known.*
unfoldable pub use Times.*
