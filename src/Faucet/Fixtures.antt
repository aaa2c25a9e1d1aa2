-- ===== src/Faucet/Fixtures.antt =====
-- An account and a configuration of the faucet, for the tests.
use jupiter_faucet_suite.Common.{none}
use jupiter_faucet_suite.Ledger.{Account}
use jupiter_faucet_suite.Faucet.State.{Config}

abbrev pub account : Account
account = record { owner = 1; subaccount = 0 }

abbrev pub config : Config
config = record {
  staking_account = account;
  payout_subaccount = none;
  ledger_canister_id = 2;
  index_canister_id = 3;
  cmc_canister_id = 4;
  governance_canister_id = none;
  funding_source_account = account;
  rescue_controller = 5;
  autonomous_rescue_armed = none;
  expected_first_staking_tx_id = none;
  main_interval_seconds = 60;
  rescue_interval_seconds = 60;
  min_tx_e8s = 100_000_000;
  stake_recognition_delay_seconds = none;
}
