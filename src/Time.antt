-- ===== src/Time.antt =====
-- The clocks of crates/ferroid/src/time/.
pub mod MonoClock
