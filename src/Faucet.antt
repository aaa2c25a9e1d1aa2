-- ===== src/Faucet.antt =====
-- The faucet (canisters/faucet): what each commitment of a round is paid.
pub mod State
pub mod Accounting
pub mod Dispatch
pub mod Transfer
pub mod Fallback
pub mod Classify
pub mod Drive
pub mod Fixtures
pub mod IndexHealth
pub mod Pot
pub mod Shares
mod Tests
