-- ===== src/Base32.antt =====
-- The text form of IDs, crates/ferroid/src/base32/.
pub mod Error
pub mod Crockford
pub mod Interface
pub mod Formatter
pub mod Ulid
