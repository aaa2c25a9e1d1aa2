-- ===== src/Disburser/Lifecycle/Tests.antt =====
-- Upgrades of a concrete state.
use jupiter_faucet_suite.Common.{◌≡◌, refl, none, some, false}
use jupiter_faucet_suite.Disburser.State.{State, new}
use jupiter_faucet_suite.Disburser.Lifecycle.{apply_upgrade_args_to_state, validate_config}
use jupiter_faucet_suite.Disburser.Lifecycle.Kept.{Keeps, upgrade_changes_little}
use jupiter_faucet_suite.Disburser.Tests.{cfg}

abbrev rescued : State
rescued = record (new cfg 0) { main_lock_state_ts = some 900 }

upgrade_changes_little_example : Keeps rescued (apply_upgrade_args_to_state 4 5 none 1_000 rescued)
upgrade_changes_little_example = (upgrade_changes_little 4 5 none 1_000 rescued).0

goes_through :
    apply_upgrade_args_to_state 4 5 none 1_000 rescued
    ≡ some (record rescued { main_lock_state_ts = some 0 }, false)
unfolding apply_upgrade_args_to_state validate_config new
goes_through = refl
