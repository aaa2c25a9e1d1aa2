-- ===== src/Relay/Configuration/Tests.antt =====
-- A configuration of the relay that is accepted.
use jupiter_faucet_suite.Common.{◌≡◌, refl, none, some, [], ◌∷◌}
use jupiter_faucet_suite.Relay.Surplus.{SurplusTarget}
use jupiter_faucet_suite.Relay.Configuration.{
  Config, CyclesProbePolicy, validate_config, check_managed, check_recipients,
  validate_canister_principal,
}
use jupiter_faucet_suite.Relay.Configuration.Checked.{Checked, validate_config-Checked}

abbrev cfg : Config
cfg = record {
  managed_canisters = 20 ∷ 21 ∷ [];
  ledger_canister_id = 10;
  cmc_canister_id = 11;
  governance_canister_id = 12;
  sns_rewards_canister_id = 13;
  icp_index_canister_id = 14;
  cycles_probe_policy = CyclesProbePolicy.fixed_blackhole 15;
  main_interval_seconds = 3600;
  max_transfers_per_tick = some 5;
  surplus_recipients =
      record { target = SurplusTarget.canister 20; memo = some (104 ∷ 105 ∷ []) }
      ∷ record { target = SurplusTarget.neuron 20; memo = none }
      ∷ [];
}

cfg_accepted : validate_config 0 1 cfg ≡ none
unfolding validate_config check_managed check_recipients validate_canister_principal
cfg_accepted = refl

validate_config-Checked_example : Checked 0 1 cfg
validate_config-Checked_example = validate_config-Checked 0 1 cfg cfg_accepted
