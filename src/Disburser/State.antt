-- ===== src/Disburser/State.antt =====
-- The disburser's persisted state (canisters/disburser/src/state.rs). A `Sent` transfer keeps the
-- ledger's block as a number; the source keeps that number's decimal text.
use jupiter_faucet_suite.Common.{
  holds, holds_iff, ℕ, ◌-◌, ◌*◌, ◌≡◌, ◌↔◌, Bool, true, false, Option, none, some, List, ℕ_discrete,
  unwrap_or, if◌then◌else◌,
}
use jupiter_faucet_suite.Ledger.{Principal, Account}

pub record Config : Type 0 where
  pub neuron_id : ℕ
  pub normal_recipient : Account
  pub age_bonus_recipient_1 : Account
  pub age_bonus_recipient_2 : Account
  pub ledger_canister_id : Principal
  pub governance_canister_id : Principal
  pub rescue_controller : Principal
  pub autonomous_rescue_armed : Option Bool
  pub main_interval_seconds : ℕ
  pub rescue_interval_seconds : ℕ

pub data TransferStatus : Type 0 where
  pending : TransferStatus
  sent : ℕ → TransferStatus

pub record PlannedTransfer : Type 0 where
  pub to : Account
  pub gross_share_e8s : ℕ
  pub amount_e8s : ℕ
  pub created_at_time_nanos : ℕ
  pub memo : List ℕ
  pub status : TransferStatus

pub record PayoutPlan : Type 0 where
  pub id : ℕ
  pub fee_e8s : ℕ
  pub created_at_base_nanos : ℕ
  pub transfers : List PlannedTransfer

pub data ForcedRescueReason : Type 0 where
  bootstrap_no_success : ForcedRescueReason

pub record State : Type 0 where
  pub config : Config
  pub prev_age_seconds : ℕ
  pub last_successful_transfer_ts : Option ℕ
  pub last_rescue_check_ts : ℕ
  pub rescue_triggered : Bool
  pub autonomous_rescue_armed_since_ts : Option ℕ
  pub forced_rescue_reason : Option ForcedRescueReason
  pub main_lock_state_ts : Option ℕ
  pub payout_nonce : ℕ
  pub payout_plan : Option PayoutPlan
  pub last_main_run_ts : ℕ

-- `State::new`.
unfoldable pub new : Config → ℕ → State
new config now_secs = record {
  config = config;
  prev_age_seconds = 0;
  last_successful_transfer_ts = none;
  last_rescue_check_ts = 0;
  rescue_triggered = false;
  autonomous_rescue_armed_since_ts =
      if unwrap_or config.autonomous_rescue_armed false then some now_secs else none;
  forced_rescue_reason = none;
  main_lock_state_ts = some 0;
  payout_nonce = 1;
  payout_plan = none;
  last_main_run_ts = now_secs - 10 * 365 * 24 * 60 * 60;
}

-- The derived equality of plans.
plan_discrete : Discrete (Option PayoutPlan)
plan_discrete = hlevel ℕ_discrete

unfoldable pub plan_eq : Option PayoutPlan → Option PayoutPlan → Bool
unfolding plan_discrete
plan_eq a b = holds (plan_discrete a b)

pub plan_eq_iff : (a b : Option PayoutPlan) → (plan_eq a b ≡ true) ↔ (a ≡ b)
unfolding plan_eq
plan_eq_iff a b = holds_iff (plan_discrete a b)
