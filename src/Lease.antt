-- ===== src/Lease.antt =====
-- The lease guards that keep timer callbacks from overlapping (crates/ic-clients/src/timer_guard.rs).
pub mod Timer
pub mod Fenced
mod Tests
