-- ===== src/Generator/Ulid.antt =====
-- The ULID generators of crates/ferroid/src/generator/ulid/.
pub mod Basic
pub mod BasicMono
pub mod LockMono
pub mod Parking
pub mod AtomicMono
pub mod Threads
pub mod ThreadLocal
