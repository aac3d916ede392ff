-- ===== src/Postgres.antt =====
-- The PostgreSQL extension, crates/pg-ferroid/src/lib.rs: the column type `ulid`, its conversions
-- and casts, and how they are passed. What pgrx and the server do around them (the message buffers) is not
-- modelled; `pgrx::error!` ends a call with a report.
pub mod Ulid
pub mod Datum
pub mod Signed
pub mod Sql
pub mod Forms
pub mod Time
pub mod Gen
