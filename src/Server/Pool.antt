-- ===== src/Server/Pool.antt =====
-- The worker pool of crates/ferroid-tonic-server/src/server/pool/.
pub mod Error
pub mod Worker
pub mod Manager
