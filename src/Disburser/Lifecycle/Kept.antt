-- ===== src/Disburser/Lifecycle/Kept.antt =====
-- What an upgrade keeps, and what it resets (canisters/disburser/src/lib.rs).
use jupiter_faucet_suite.Common.{
  ℕ, ◌<◌, ◌≡◌, ◌≢◌, inl, inr, refl, Bool, true, false, Option, none, some, arith, unwrap_or,
  Bool-cases,
}
use jupiter_faucet_suite.Ledger.{Account, Principal, account_eq}
use jupiter_faucet_suite.Disburser.State.{Config, State}
use jupiter_faucet_suite.Disburser.Lifecycle.{
  UpgradeArgs, validate_config, rearm, clear_forced, applied, apply_upgrade_args_to_state,
}

-- The payout's state and the counters are as they were, and the lock is free.
abbrev pub Keeps : State → Option (State × Bool) → Type 0
Keeps st none = Unit
Keeps st (some (st', reconcile)) =
    (st'.payout_plan ≡ st.payout_plan)
    × (st'.payout_nonce ≡ st.payout_nonce)
    × (st'.prev_age_seconds ≡ st.prev_age_seconds)
    × (st'.last_successful_transfer_ts ≡ st.last_successful_transfer_ts)
    × (st'.last_main_run_ts ≡ st.last_main_run_ts)
    × (st'.main_lock_state_ts ≡ some 0)
    × (record st'.config { autonomous_rescue_armed = none }
        ≡ record st.config { autonomous_rescue_armed = none })

module _ (anonymous self_id : Principal) where
  -- Three recipients, neither anonymous nor the canister's own account, two known canisters, a rescue
  -- controller that is somebody else and not anonymous, a neuron, and intervals above 0.
  abbrev pub Sound : Config → Type 0
  Sound cfg =
      (cfg.rescue_controller ≢ self_id)
      × (cfg.rescue_controller ≢ anonymous)
      × (cfg.ledger_canister_id ≢ anonymous)
      × (cfg.governance_canister_id ≢ anonymous)
      × (cfg.normal_recipient.owner ≢ anonymous)
      × (cfg.age_bonus_recipient_1.owner ≢ anonymous)
      × (cfg.age_bonus_recipient_2.owner ≢ anonymous)
      × (cfg.normal_recipient ≢ record { owner = self_id; subaccount = 0 })
      × (cfg.age_bonus_recipient_1 ≢ record { owner = self_id; subaccount = 0 })
      × (cfg.age_bonus_recipient_2 ≢ record { owner = self_id; subaccount = 0 })
      × (cfg.neuron_id ≢ 0)
      × (account_eq cfg.normal_recipient cfg.age_bonus_recipient_1 ≡ false)
      × (account_eq cfg.normal_recipient cfg.age_bonus_recipient_2 ≡ false)
      × (account_eq cfg.age_bonus_recipient_1 cfg.age_bonus_recipient_2 ≡ false)
      × (0 < cfg.main_interval_seconds)
      × (0 < cfg.rescue_interval_seconds)

  other :
      (a : Account)
      → account_eq a (record { owner = self_id; subaccount = 0 }) ≡ false
      → a ≢ record { owner = self_id; subaccount = 0 }
  other a h e = let z = rw e at h in ground (arith, z)

  validate_config-Sound : (cfg : Config) → validate_config anonymous self_id cfg ≡ true → Sound cfg
  unfolding validate_config
  validate_config-Sound cfg valid = (
    ground arith,
    ground arith,
    ground arith,
    ground arith,
    ground arith,
    ground arith,
    ground arith,
    other cfg.normal_recipient (ground arith),
    other cfg.age_bonus_recipient_1 (ground arith),
    other cfg.age_bonus_recipient_2 (ground arith),
    ground arith,
    ground arith,
    ground arith,
    ground arith,
    ground arith,
    ground arith,
  )

abbrev unlocked : State × Bool → Option (State × Bool)
unlocked (st, reconcile) = some (record st { main_lock_state_ts = some 0 }, reconcile)

clear_forced-Keeps :
    (clear : Bool) (now : ℕ) (st : State) → Keeps st (unlocked (clear_forced clear now st))
clear_forced-Keeps false now st = (refl, refl, refl, refl, refl, refl, refl)
clear_forced-Keeps true now st =
    elim (Bool-cases (unwrap_or st.config.autonomous_rescue_armed false)) [
      | inl on ↦ rw on (refl, refl, refl, refl, refl, refl, refl)
      | inr off ↦ rw off (refl, refl, refl, refl, refl, refl, refl)
    ]

applied-Keeps :
    (args : Option UpgradeArgs) (now : ℕ) (st : State) → Keeps st (unlocked (applied args now st))
applied-Keeps none now st = (refl, refl, refl, refl, refl, refl, refl)
applied-Keeps (some args) now st = rearmed args.autonomous_rescue_armed
  where
    rearmed :
        (armed : Option Bool)
        → Keeps st (
            unlocked
              (clear_forced (unwrap_or args.clear_forced_rescue false) now (rearm armed now st)))
    rearmed none = clear_forced-Keeps (unwrap_or args.clear_forced_rescue false) now st
    rearmed (some armed) =
        clear_forced-Keeps (unwrap_or args.clear_forced_rescue false) now
          (rearm (some armed) now st)

abbrev pub IsSound : Principal → Principal → Option (State × Bool) → Type 0
IsSound anonymous self_id none = Unit
IsSound anonymous self_id (some (st, reconcile)) = Sound anonymous self_id st.config

-- An upgrade that goes through keeps the plan, the nonce, the age, the times of the last success and
-- run, and all of the configuration but for whether rescue is armed; it frees the lock. Its
-- configuration has a neuron, intervals above 0, three different recipients of which none is
-- anonymous or the canister's own default account, a ledger and a governance canister that are not
-- anonymous, and a rescue controller that is neither anonymous nor the canister itself.
pub upgrade_changes_little :
    (anonymous self_id : Principal) (args : Option UpgradeArgs) (now : ℕ) (st : State)
    → let result = apply_upgrade_args_to_state anonymous self_id args now st in
      Keeps st result × IsSound anonymous self_id result
unfolding apply_upgrade_args_to_state
upgrade_changes_little anonymous self_id args now st =
    let config : Config = (applied args now st).0.config in
    elim (Bool-cases (validate_config anonymous self_id config)) [
      | inl valid ↦
          rw valid (applied-Keeps args now st, validate_config-Sound anonymous self_id config valid)
      | inr bad ↦ rw bad (tt, tt)
    ]
