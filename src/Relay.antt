-- ===== src/Relay.antt =====
-- The relay's plans (canisters/relay/src/logic.rs).
pub mod Configuration
pub mod Commitment
pub mod Splitter
pub mod Conversion
pub mod Surplus
pub mod Proportional
pub mod Topups
pub mod Allocation
mod Tests
