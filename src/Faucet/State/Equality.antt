-- ===== src/Faucet/State/Equality.antt =====
-- The derived equality of pending transfers (canisters/faucet/src/state.rs).
use jupiter_faucet_suite.Common.{holds, holds_iff, ◌≡◌, ◌↔◌, Bool, true, Option, ℕ_discrete}
use jupiter_faucet_suite.Faucet.State.{PendingTransfer}

pending_discrete : Discrete (Option PendingTransfer)
pending_discrete = hlevel ℕ_discrete

unfoldable pub pending_eq : Option PendingTransfer → Option PendingTransfer → Bool
unfolding pending_discrete
pending_eq a b = holds (pending_discrete a b)

pub pending_eq_iff : (a b : Option PendingTransfer) → (pending_eq a b ≡ true) ↔ (a ≡ b)
unfolding pending_eq
pending_eq_iff a b = holds_iff (pending_discrete a b)
