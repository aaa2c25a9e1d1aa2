-- ===== src/Faucet/State.antt =====
-- The faucet's persisted state (canisters/faucet/src/state.rs). A subaccount is the number that its 32
-- bytes spell.
pub mod Equality
use jupiter_faucet_suite.Common.{
  ℕ, ◌-◌, ◌*◌, Bool, true, false, Option, none, some, List, [], unwrap_or, if◌then◌else◌,
}
use jupiter_faucet_suite.Ledger.{Principal, Account}

pub record Config : Type 0 where
  pub staking_account : Account
  pub payout_subaccount : Option ℕ
  pub ledger_canister_id : Principal
  pub index_canister_id : Principal
  pub cmc_canister_id : Principal
  pub governance_canister_id : Option Principal
  pub funding_source_account : Account
  pub rescue_controller : Principal
  pub autonomous_rescue_armed : Option Bool
  pub expected_first_staking_tx_id : Option ℕ
  pub main_interval_seconds : ℕ
  pub rescue_interval_seconds : ℕ
  pub min_tx_e8s : ℕ
  pub stake_recognition_delay_seconds : Option ℕ

pub data TransferKind : Type 0 where
  beneficiary cycles_top_up_raw_fallback raw_icp neuron_stake remainder_to_relay : TransferKind

abbrev pub is_beneficiary_payout : TransferKind → Bool
is_beneficiary_payout TransferKind.remainder_to_relay = false
is_beneficiary_payout kind = true

abbrev pub requires_cmc_notify : TransferKind → Bool
requires_cmc_notify TransferKind.beneficiary = true
requires_cmc_notify kind = false

pub record PendingNotification : Type 0 where
  pub kind : TransferKind
  pub beneficiary : Principal
  pub gross_share_e8s : ℕ
  pub amount_e8s : ℕ
  pub block_index : ℕ
  pub next_start : Option ℕ
  pub transfer_memo : Option (List ℕ)
  pub destination_subaccount : Option ℕ
  pub neuron_id : Option ℕ

pub data PendingTransferPhase : Type 0 where
  awaiting_transfer transfer_accepted : PendingTransferPhase

pub record PendingTransfer : Type 0 where
  pub notification : PendingNotification
  pub created_at_time_nanos : ℕ
  pub phase : PendingTransferPhase

pub data ForcedRescueReason : Type 0 where
  bootstrap_no_success index_anchor_missing index_latest_invariant_broken : ForcedRescueReason
  index_latest_unreadable cmc_zero_success_runs accounting_invariant_broken : ForcedRescueReason
  funding_tranche_balance_mismatch funding_discovery_unreadable : ForcedRescueReason

pub record Summary : Type 0 where
  pub pot_start_e8s : ℕ
  pub pot_remaining_e8s : ℕ
  pub denom_staking_balance_e8s : ℕ
  pub effective_denom_staking_balance_e8s : Option ℕ
  pub funding_tx_id : Option ℕ
  pub funding_amount_e8s : Option ℕ
  pub round_end_latest_tx_id : Option ℕ
  pub round_end_time_nanos : Option ℕ
  pub last_processed_funding_tx_id : Option ℕ
  pub topped_up_count : ℕ
  pub topped_up_sum_e8s : ℕ
  pub topped_up_min_e8s : Option ℕ
  pub topped_up_max_e8s : Option ℕ
  pub failed_topups : ℕ
  pub ambiguous_topups : ℕ
  pub ignored_under_threshold : ℕ
  pub ignored_bad_memo : ℕ
  pub remainder_to_relay_e8s : ℕ

pub record FundingTrancheState : Type 0 where
  pub tx_id : ℕ
  pub timestamp_nanos : ℕ
  pub amount_e8s : ℕ

pub record FundingScanState : Type 0 where
  pub anchor_last_processed_funding_tx_id : Option ℕ
  pub cursor : Option ℕ
  pub candidate : Option FundingTrancheState

pub record ActivePayoutJob : Type 0 where
  pub id : ℕ
  pub fee_e8s : ℕ
  pub pot_start_e8s : ℕ
  pub denom_staking_balance_e8s : ℕ
  pub next_start : Option ℕ
  pub scan_complete : Bool
  pub ignored_under_threshold : ℕ
  pub ignored_bad_memo : ℕ
  pub gross_outflow_e8s : ℕ
  pub topped_up_count : ℕ
  pub topped_up_sum_e8s : ℕ
  pub topped_up_min_e8s : Option ℕ
  pub topped_up_max_e8s : Option ℕ
  pub failed_topups : ℕ
  pub ambiguous_topups : ℕ
  pub remainder_to_relay_e8s : ℕ
  pub pending_transfer : Option PendingTransfer
  pub skip_candidate_start_tx_id : Option ℕ
  pub skip_candidate_end_tx_id : Option ℕ
  pub skip_candidate_tx_count : ℕ
  pub next_created_at_time_nanos : ℕ
  pub observed_oldest_tx_id : Option ℕ
  pub observed_latest_tx_id : Option ℕ
  pub cmc_attempt_count : Option ℕ
  pub cmc_success_count : Option ℕ
  pub cmc_attempted_beneficiaries : Option (List Principal)
  pub round_start_time_nanos : Option ℕ
  pub round_start_latest_tx_id : Option ℕ
  pub round_end_time_nanos : Option ℕ
  pub round_end_latest_tx_id : Option ℕ
  pub effective_denom_staking_balance_e8s : Option ℕ
  pub effective_denom_scan_complete : Option Bool
  pub funding_tx_id : Option ℕ
  pub funding_tx_timestamp_nanos : Option ℕ
  pub funding_amount_e8s : Option ℕ

-- `ActivePayoutJob::new`.
unfoldable pub new_job : ℕ → ℕ → ℕ → ℕ → ℕ → ActivePayoutJob
new_job id fee_e8s pot_start_e8s denom_staking_balance_e8s created_at_time_nanos = record {
  id = id;
  fee_e8s = fee_e8s;
  pot_start_e8s = pot_start_e8s;
  denom_staking_balance_e8s = denom_staking_balance_e8s;
  next_start = none;
  scan_complete = false;
  ignored_under_threshold = 0;
  ignored_bad_memo = 0;
  gross_outflow_e8s = 0;
  topped_up_count = 0;
  topped_up_sum_e8s = 0;
  topped_up_min_e8s = none;
  topped_up_max_e8s = none;
  failed_topups = 0;
  ambiguous_topups = 0;
  remainder_to_relay_e8s = 0;
  pending_transfer = none;
  skip_candidate_start_tx_id = none;
  skip_candidate_end_tx_id = none;
  skip_candidate_tx_count = 0;
  next_created_at_time_nanos = created_at_time_nanos;
  observed_oldest_tx_id = none;
  observed_latest_tx_id = none;
  cmc_attempt_count = some 0;
  cmc_success_count = some 0;
  cmc_attempted_beneficiaries = some [];
  round_start_time_nanos = none;
  round_start_latest_tx_id = none;
  round_end_time_nanos = none;
  round_end_latest_tx_id = none;
  effective_denom_staking_balance_e8s = none;
  effective_denom_scan_complete = none;
  funding_tx_id = none;
  funding_tx_timestamp_nanos = none;
  funding_amount_e8s = none;
}

pub record State : Type 0 where
  pub config : Config
  pub last_summary : Option Summary
  pub last_successful_transfer_ts : Option ℕ
  pub last_rescue_check_ts : ℕ
  pub rescue_triggered : Bool
  pub autonomous_rescue_armed_since_ts : Option ℕ
  pub forced_rescue_reason : Option ForcedRescueReason
  pub skip_range_invariant_fault : Option Bool
  pub consecutive_index_anchor_failures : Option ℕ
  pub consecutive_index_latest_invariant_failures : Option ℕ
  pub consecutive_index_latest_unreadable_failures : Option ℕ
  pub consecutive_cmc_zero_success_runs : Option ℕ
  pub last_observed_staking_balance_e8s : Option ℕ
  pub last_observed_latest_tx_id : Option ℕ
  pub main_lock_state_ts : Option ℕ
  pub payout_nonce : ℕ
  pub active_payout_job : Option ActivePayoutJob
  pub last_main_run_ts : ℕ
  pub current_round_start_time_nanos : Option ℕ
  pub current_round_start_latest_tx_id : Option ℕ
  pub last_processed_funding_tx_id : Option ℕ
  pub active_funding_scan : Option FundingScanState

-- `State::new`.
unfoldable pub new : Config → ℕ → State
new config now_secs = record {
  config = config;
  last_summary = none;
  last_successful_transfer_ts = none;
  last_rescue_check_ts = 0;
  rescue_triggered = false;
  autonomous_rescue_armed_since_ts =
      if unwrap_or config.autonomous_rescue_armed false then some now_secs else none;
  forced_rescue_reason = none;
  skip_range_invariant_fault = some false;
  consecutive_index_anchor_failures = some 0;
  consecutive_index_latest_invariant_failures = some 0;
  consecutive_index_latest_unreadable_failures = some 0;
  consecutive_cmc_zero_success_runs = some 0;
  last_observed_staking_balance_e8s = none;
  last_observed_latest_tx_id = none;
  main_lock_state_ts = some 0;
  payout_nonce = 1;
  active_payout_job = none;
  last_main_run_ts = now_secs - 10 * 365 * 24 * 60 * 60;
  current_round_start_time_nanos = none;
  current_round_start_latest_tx_id = none;
  last_processed_funding_tx_id = none;
  active_funding_scan = none;
}

-- `latch_forced_rescue_reason`: only the first reason is kept.
unfoldable pub latch_forced_rescue_reason : ForcedRescueReason → State → State
latch_forced_rescue_reason reason st = elim st.forced_rescue_reason [
  | none ↦ record st { forced_rescue_reason = some reason }
  | some earlier ↦ st
]
