-- ===== src/Server.antt =====
-- The ID server of crates/ferroid-tonic-server/src/server/.
pub mod Config
pub mod Feed
pub mod Processor
pub mod Pool
pub mod Service
pub mod Stream
pub mod Streams
