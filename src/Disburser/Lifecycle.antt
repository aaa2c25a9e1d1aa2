-- ===== src/Disburser/Lifecycle.antt =====
-- Installation and upgrade: canisters/disburser/src/lib.rs. `none` is a failed assertion, which traps.
-- The anonymous principal and the principals of the two mainnet canisters' texts are parameters.
pub mod Kept
mod Tests
pub mod Narrowing
use jupiter_faucet_suite.Common.{
  ℕ, ◌-◌, Bool, true, false, Option, none, some, List, ltb, ◌==◌, ◌&&◌, not, any, unwrap_or,
  if◌then◌else◌,
}
use jupiter_faucet_suite.Ledger.{Principal, Account, account_eq}
use jupiter_faucet_suite.Disburser.State.{Config, State, new}

pub record InitArgs : Type 0 where
  pub neuron_id : ℕ
  pub normal_recipient : Account
  pub age_bonus_recipient_1 : Account
  pub age_bonus_recipient_2 : Account
  pub ledger_canister_id : Option Principal
  pub governance_canister_id : Option Principal
  pub rescue_controller : Principal
  pub autonomous_rescue_armed : Option Bool
  pub main_interval_seconds : Option ℕ
  pub rescue_interval_seconds : Option ℕ

pub record UpgradeArgs : Type 0 where
  pub autonomous_rescue_armed : Option Bool
  pub clear_forced_rescue : Option Bool

abbrev pub rearm : Option Bool → ℕ → State → State
rearm none now_secs st = st
rearm (some armed) now_secs st = record st {
  config = record st.config { autonomous_rescue_armed = some armed };
  autonomous_rescue_armed_since_ts = if armed then some now_secs else none;
  rescue_triggered = if armed then st.rescue_triggered else false;
}

-- The state, and whether a controller update is scheduled at once.
abbrev pub clear_forced : Bool → ℕ → State → State × Bool
clear_forced clear now_secs st =
    if not clear
    then (st, false)
    else if unwrap_or st.config.autonomous_rescue_armed false
    then (
      record st {
        forced_rescue_reason = none;
        autonomous_rescue_armed_since_ts = some now_secs;
        rescue_triggered = true;
      },
      true,
    )
    else (
      record st {
        forced_rescue_reason = none;
        autonomous_rescue_armed_since_ts = none;
        rescue_triggered = false;
      },
      false,
    )

abbrev pub applied : Option UpgradeArgs → ℕ → State → State × Bool
applied none now_secs st = (st, false)
applied (some args) now_secs st =
    clear_forced (unwrap_or args.clear_forced_rescue false) now_secs
      (rearm args.autonomous_rescue_armed now_secs st)

module _ (anonymous self_id : Principal) where
  abbrev pub staging_account : Account
  staging_account = record { owner = self_id; subaccount = 0 }

  -- Whether every assertion holds.
  unfoldable pub validate_config : Config → Bool
  validate_config cfg =
      not (cfg.neuron_id == 0)
      && not (cfg.ledger_canister_id == anonymous)
      && not (cfg.governance_canister_id == anonymous)
      && not (cfg.rescue_controller == anonymous)
      && not (cfg.rescue_controller == self_id)
      && ltb 0 cfg.main_interval_seconds
      && ltb 0 cfg.rescue_interval_seconds
      && not (cfg.normal_recipient.owner == anonymous)
      && not (cfg.age_bonus_recipient_1.owner == anonymous)
      && not (cfg.age_bonus_recipient_2.owner == anonymous)
      && not (account_eq cfg.normal_recipient staging_account)
      && not (account_eq cfg.age_bonus_recipient_1 staging_account)
      && not (account_eq cfg.age_bonus_recipient_2 staging_account)
      && not (account_eq cfg.normal_recipient cfg.age_bonus_recipient_1)
      && not (account_eq cfg.normal_recipient cfg.age_bonus_recipient_2)
      && not (account_eq cfg.age_bonus_recipient_1 cfg.age_bonus_recipient_2)

  unfoldable pub init : Principal → Principal → InitArgs → ℕ → Option State
  init mainnet_ledger_id mainnet_governance_id args now_secs =
      let cfg : Config = record {
        neuron_id = args.neuron_id;
        normal_recipient = args.normal_recipient;
        age_bonus_recipient_1 = args.age_bonus_recipient_1;
        age_bonus_recipient_2 = args.age_bonus_recipient_2;
        ledger_canister_id = unwrap_or args.ledger_canister_id mainnet_ledger_id;
        governance_canister_id = unwrap_or args.governance_canister_id mainnet_governance_id;
        rescue_controller = args.rescue_controller;
        autonomous_rescue_armed = args.autonomous_rescue_armed;
        main_interval_seconds = unwrap_or args.main_interval_seconds 86_400;
        rescue_interval_seconds = unwrap_or args.rescue_interval_seconds 86_400;
      } in
      if validate_config cfg then some (new cfg now_secs) else none

  unfoldable pub apply_upgrade_args_to_state :
      Option UpgradeArgs → ℕ → State → Option (State × Bool)
  apply_upgrade_args_to_state args now_secs st =
      let (st', reconcile) = applied args now_secs st in
      if validate_config st'.config
      then some (record st' { main_lock_state_ts = some 0 }, reconcile)
      else none
