-- ===== src/Disburser/Rescue/Tests.antt =====
-- The rescue tick at a concrete state.
use jupiter_faucet_suite.Common.{◌≡◌, ◌∷◌, [], some, refl, leb}
use jupiter_faucet_suite.Disburser.State.{State, new}
use jupiter_faucet_suite.Disburser.Rescue.{
  rescue_request, latch_forced_rescue, bootstrap_rescue_due,
}
use jupiter_faucet_suite.Disburser.Tests.{cfg}

-- Two weeks and a second after it was armed, without a payout.
abbrev silent : State
silent = record (new cfg 0) { autonomous_rescue_armed_since_ts = some 1_000_000 }

silent_widens : (rescue_request leb 2_209_601 5 silent).1 ≡ some (5 ∷ 16 ∷ [])
unfolding rescue_request latch_forced_rescue bootstrap_rescue_due new
silent_widens = refl
