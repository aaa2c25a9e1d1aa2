-- ===== src/Disburser.antt =====
-- The disburser canister (canisters/disburser/src): it stages the neuron's maturity in its own
-- ledger account and pays it out to three recipients by a persisted plan.
pub mod Store
pub mod State
pub mod Guard
pub mod Split
pub mod Plan
pub mod Payout
pub mod Rescue
pub mod Poke
pub mod MainTick
pub mod Lifecycle
pub mod Tests
