-- ===== src/Faucet/Pot.antt =====
-- The pot of a job: the outflow that is recorded and what its pending transfer may still take.
pub mod Changes
pub mod Fallbacks
pub mod Driven
pub mod Kept
pub mod Answers
use jupiter_faucet_suite.Common.{
  u64_max, not, ◌&&◌, leb, ℕ, ◌+◌, ◌-◌, ◌≤◌, ◌≡◌, refl, sym, subst, inl, inr, Bool, true, false,
  Option, none, some, if◌then◌else◌, arith, Bool-cases,
}
use jupiter_faucet_suite.Faucet.Fallback.Fresh.{fresh_transition_cases}
use jupiter_faucet_suite.Faucet.Accounting.{
  apply_notified_transfer, record_ledger_accepted_transfer,
}
use jupiter_faucet_suite.Faucet.Transfer.{
  note_attempted_beneficiary, increment_cmc_attempts, with_success, record_completed_transfer,
  count_terminal, PendingTransferTerminalStatus, mark_pending_transfer_accepted,
  clear_pending_transfer,
}
use jupiter_faucet_suite.Faucet.Fallback.{
  AmbiguousPendingGrossReservation, reserve, clear_reserved, record_unusable, reserved_outflow,
  reserve_ambiguous_awaiting_transfer_gross, reserve_then_clear_ambiguous_awaiting_transfer,
  record_accepted_transfer_with_unusable_block_index, latch, RefundFallbackTransition,
  refund_credit_e8s, same_size_fallback, notification_eq, stage_fresh, refund_to_fallback,
  is_beneficiary, raw_fallback, stage_refund, with_credit,
  transition_refunded_beneficiary_to_raw_fallback, stage_raw_fallback_after_definite_rejection,
  fresh_transition_created_at_time, is_awaiting,
}
use jupiter_faucet_suite.Faucet.State.{
  requires_cmc_notify, is_beneficiary_payout, ActivePayoutJob, PendingTransfer, PendingNotification,
  PendingTransferPhase, TransferKind, ForcedRescueReason, latch_forced_rescue_reason,
}
use jupiter_faucet_suite.Faucet.Dispatch.{
  at_job, set_pending_transfer_dispatch, clear_pending_transfer_dispatch, Store, job_with, put_job,
}
use jupiter_faucet_suite.Faucet.Dispatch.Matching.{job_with-put_job, at_job_with, Matching}

-- The gross share of a transfer that the ledger has not accepted yet.
abbrev pub reserved_e8s : Option PendingTransfer → ℕ
reserved_e8s none = 0
reserved_e8s (some p) = if is_awaiting p.phase then p.notification.gross_share_e8s else 0

abbrev pub committed_e8s : Option ActivePayoutJob → ℕ
committed_e8s none = 0
committed_e8s (some job) = job.gross_outflow_e8s + reserved_e8s job.pending_transfer

abbrev pub pot_e8s : Option ActivePayoutJob → ℕ
pot_e8s none = 0
pot_e8s (some job) = job.pot_start_e8s

-- The active job's recorded outflow and its reserved share stay within its pot.
unfoldable pub WithinPot : Store → Type 0
WithinPot s = committed_e8s s.st.active_payout_job ≤ pot_e8s s.st.active_payout_job

-- What `WithinPot` says of a job that has the expected pending transfer.
pub Matching-WithinPot :
    (j : ℕ) (e : PendingTransfer) (s : Store) (job : ActivePayoutJob)
    → Matching j e s.st.active_payout_job job
    → WithinPot s
    → job.gross_outflow_e8s + reserved_e8s (some e) ≤ job.pot_start_e8s
unfolding WithinPot
Matching-WithinPot j e s job (o, i, p) h =
    subst (λ q. job.gross_outflow_e8s + reserved_e8s q ≤ job.pot_start_e8s) p
      (subst (λ q. committed_e8s q ≤ pot_e8s q) o h)

active-WithinPot :
    (s : Store) (job : ActivePayoutJob)
    → s.st.active_payout_job ≡ some job
    → WithinPot s
    → job.gross_outflow_e8s + reserved_e8s job.pending_transfer ≤ job.pot_start_e8s
unfolding WithinPot
active-WithinPot s job o h = subst (λ q. committed_e8s q ≤ pot_e8s q) o h
