-- ===== src/Faucet/Pot/Changes.antt =====
-- The pot under the changes of cmc_notify.rs: acceptance, completion, clearing, attempts.
use jupiter_faucet_suite.Common.{
  ℕ, ◌+◌, ◌≤◌, ◌≡◌, inl, inr, Bool, true, false, Option, none, some, arith, Bool-cases,
}
use jupiter_faucet_suite.Faucet.Accounting.{
  apply_notified_transfer, record_ledger_accepted_transfer,
}
use jupiter_faucet_suite.Faucet.Transfer.{
  note_attempted_beneficiary, increment_cmc_attempts, with_success, record_completed_transfer,
  count_terminal, PendingTransferTerminalStatus, mark_pending_transfer_accepted,
  clear_pending_transfer,
}
use jupiter_faucet_suite.Faucet.Fallback.{latch, is_awaiting}
use jupiter_faucet_suite.Faucet.State.{
  requires_cmc_notify, is_beneficiary_payout, ActivePayoutJob, PendingTransfer, TransferKind,
  ForcedRescueReason, latch_forced_rescue_reason,
}
use jupiter_faucet_suite.Faucet.Dispatch.{clear_pending_transfer_dispatch, Store}
use jupiter_faucet_suite.Faucet.Dispatch.Matching.{at_job_with}
use jupiter_faucet_suite.Faucet.Pot.{WithinPot, reserved_e8s, Matching-WithinPot, active-WithinPot}

pub clear-WithinPot :
    (j : ℕ) (e : PendingTransfer) (t : PendingTransferTerminalStatus) (s : Store)
    → WithinPot s
    → WithinPot (clear_pending_transfer j e t s)
unfolding clear_pending_transfer clear_pending_transfer_dispatch WithinPot
clear-WithinPot j e t s h = at_job_with WithinPot j e s _ s h (λ job. λ m.
    counted job (is_beneficiary_payout e.notification.kind) t (Matching-WithinPot j e s job m h))
  where
    counted :
        (job : ActivePayoutJob) (k : Bool) (t : PendingTransferTerminalStatus)
        → job.gross_outflow_e8s + reserved_e8s (some e) ≤ job.pot_start_e8s
        → (count_terminal k t job).gross_outflow_e8s + 0 ≤ (count_terminal k t job).pot_start_e8s
    counted job false t b = omega arith
    counted job true PendingTransferTerminalStatus.failed b = omega arith
    counted job true PendingTransferTerminalStatus.ambiguous b = omega arith

pub marked-WithinPot :
    (j : ℕ) (e : PendingTransfer) (b : ℕ) (s : Store)
    → is_awaiting e.phase ≡ true
    → WithinPot s
    → WithinPot (mark_pending_transfer_accepted j e b s).0
unfolding mark_pending_transfer_accepted record_ledger_accepted_transfer WithinPot
marked-WithinPot j e b s v h =
    at_job_with (λ (r : Store × Option PendingTransfer). WithinPot r.0) j e (s, none) _ s h
      (λ job. λ m.
        (let w : job.gross_outflow_e8s + reserved_e8s (some e) ≤ job.pot_start_e8s =
            Matching-WithinPot j e s job m h in
          grind arith))

pub latched-WithinPot : (r : ForcedRescueReason) (s : Store) → WithinPot s → WithinPot (latch r s)
unfolding latch latch_forced_rescue_reason WithinPot
latched-WithinPot r s h = reasons s.st.forced_rescue_reason
  where
    reasons :
        (o : Option ForcedRescueReason)
        → WithinPot (record s {
          st = elim o [
            | none ↦ record s.st { forced_rescue_reason = some r }
            | some earlier ↦ s.st
          ];
        })
    reasons none = h
    reasons (some earlier) = h

pub completed-WithinPot :
    (j : ℕ) (e : PendingTransfer) (now : ℕ) (s : Store)
    → WithinPot s
    → WithinPot (record_completed_transfer j e now s)
unfolding record_completed_transfer clear_pending_transfer_dispatch apply_notified_transfer
    WithinPot
completed-WithinPot j e now s h = at_job_with WithinPot j e s _ s h (λ job. λ m.
    counted job (requires_cmc_notify e.notification.kind) e.notification.kind
      (Matching-WithinPot j e s job m h))
  where
    counted :
        (job : ActivePayoutJob) (b : Bool) (kind : TransferKind)
        → job.gross_outflow_e8s + reserved_e8s (some e) ≤ job.pot_start_e8s
        → (apply_notified_transfer e.notification (with_success b job)).gross_outflow_e8s + 0
          ≤ (apply_notified_transfer e.notification (with_success b job)).pot_start_e8s
    counted job b kind w = grind arith

pub noted-WithinPot :
    (j : ℕ) (e : PendingTransfer) (s : Store)
    → WithinPot s
    → WithinPot (note_attempted_beneficiary j e s)
unfolding note_attempted_beneficiary WithinPot
noted-WithinPot j e s h = elim (Bool-cases (requires_cmc_notify e.notification.kind)) [
  | inl v ↦ rw v (at_job_with WithinPot j e s _ s h (λ job. λ m. active-WithinPot s job m.0 h))
  | inr v ↦ rw v h
]

pub incremented-WithinPot :
    (j : ℕ) (e : PendingTransfer) (s : Store)
    → WithinPot s
    → WithinPot (increment_cmc_attempts j e s)
unfolding increment_cmc_attempts WithinPot
incremented-WithinPot j e s h = elim (Bool-cases (requires_cmc_notify e.notification.kind)) [
  | inl v ↦ rw v (at_job_with WithinPot j e s _ s h (λ job. λ m. active-WithinPot s job m.0 h))
  | inr v ↦ rw v h
]
