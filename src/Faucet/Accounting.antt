-- ===== src/Faucet/Accounting.antt =====
-- The job's accounting (canisters/faucet/src/logic.rs): what the ledger accepted, what was
-- completed, and the summary of a finished job.
use jupiter_faucet_suite.Common.{ℕ, ◌-◌, Option, none, some, min, max, sat_add}
use jupiter_faucet_suite.Faucet.State.{ActivePayoutJob, PendingNotification, Summary, TransferKind}

unfoldable pub record_ledger_accepted_transfer :
    PendingNotification → ActivePayoutJob → ActivePayoutJob
record_ledger_accepted_transfer pending job = record job {
  gross_outflow_e8s = sat_add job.gross_outflow_e8s pending.gross_share_e8s;
}

-- The first amount is the extreme, a later one is compared with it.
abbrev pub extreme : (ℕ → ℕ → ℕ) → Option ℕ → ℕ → Option ℕ
extreme pick none amount = some amount
extreme pick (some prev) amount = some (pick prev amount)

abbrev pub topped_up : PendingNotification → ActivePayoutJob → ActivePayoutJob
topped_up pending job = record job {
  topped_up_count = sat_add job.topped_up_count 1;
  topped_up_sum_e8s = sat_add job.topped_up_sum_e8s pending.amount_e8s;
  topped_up_min_e8s = extreme min job.topped_up_min_e8s pending.amount_e8s;
  topped_up_max_e8s = extreme max job.topped_up_max_e8s pending.amount_e8s;
}

unfoldable pub apply_notified_transfer : PendingNotification → ActivePayoutJob → ActivePayoutJob
apply_notified_transfer pending job = elim pending.kind [
  | TransferKind.remainder_to_relay ↦ record job { remainder_to_relay_e8s = pending.amount_e8s }
  | _ ↦ topped_up pending job
]

unfoldable pub summary_from_job : ActivePayoutJob → Summary
summary_from_job job = record {
  pot_start_e8s = job.pot_start_e8s;
  pot_remaining_e8s = job.pot_start_e8s - job.gross_outflow_e8s;
  denom_staking_balance_e8s = job.denom_staking_balance_e8s;
  effective_denom_staking_balance_e8s = job.effective_denom_staking_balance_e8s;
  funding_tx_id = job.funding_tx_id;
  funding_amount_e8s = job.funding_amount_e8s;
  round_end_latest_tx_id = job.round_end_latest_tx_id;
  round_end_time_nanos = job.round_end_time_nanos;
  last_processed_funding_tx_id = job.funding_tx_id;
  topped_up_count = job.topped_up_count;
  topped_up_sum_e8s = job.topped_up_sum_e8s;
  topped_up_min_e8s = job.topped_up_min_e8s;
  topped_up_max_e8s = job.topped_up_max_e8s;
  failed_topups = job.failed_topups;
  ambiguous_topups = job.ambiguous_topups;
  ignored_under_threshold = job.ignored_under_threshold;
  ignored_bad_memo = job.ignored_bad_memo;
  remainder_to_relay_e8s = job.remainder_to_relay_e8s;
}
