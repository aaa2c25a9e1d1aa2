-- ===== src/Faucet/Transfer.antt =====
-- The changes of a pending transfer (canisters/faucet/src/scheduler/cmc_notify.rs and
-- cmc_notify_transfer.rs), each of which the source makes in one `with_state_mut` closure.
use jupiter_faucet_suite.Common.{
  ℕ, ◌-◌, Bool, true, false, Option, none, some, List, [], ◌∷◌, ◌++◌, ◌==◌, ◌&&◌, ◌||◌, not,
  is_none, unwrap_or, if◌then◌else◌, leb, ltb, sat_add, length,
}
use jupiter_faucet_suite.Ledger.{Principal}
use jupiter_faucet_suite.Faucet.State.{
  ActivePayoutJob, PendingTransfer, PendingNotification, PendingTransferPhase,
  is_beneficiary_payout, requires_cmc_notify,
}
use jupiter_faucet_suite.Faucet.Accounting.{
  record_ledger_accepted_transfer, apply_notified_transfer,
}
use jupiter_faucet_suite.Faucet.Dispatch.{
  at_job, Store, set_pending_transfer_dispatch, clear_pending_transfer_dispatch, put_job, job_with,
}

abbrev pub ledger_created_at_max_age_nanos : ℕ
ledger_created_at_max_age_nanos = 86_400_000_000_000

abbrev pub ledger_created_at_max_future_skew_nanos : ℕ
ledger_created_at_max_future_skew_nanos = 60_000_000_000

abbrev pub max_cmc_diagnostic_witnesses : ℕ
max_cmc_diagnostic_witnesses = 16

unfoldable pub created_at_time_is_valid_for_ledger : ℕ → ℕ → Bool
created_at_time_is_valid_for_ledger created_at now =
    leb (now - created_at) ledger_created_at_max_age_nanos
    && leb created_at (sat_add now ledger_created_at_max_future_skew_nanos)

-- The two halves of `allocate_created_at_time_nanos`: the time that is used, and the job after it.
unfoldable pub next_created_at_time : ℕ → ActivePayoutJob → ℕ
next_created_at_time now job =
    if created_at_time_is_valid_for_ledger job.next_created_at_time_nanos now
    then job.next_created_at_time_nanos
    else now

-- `none` where the source panics, with no active job.
abbrev pub allocate_created_at_time_nanos : ℕ → Store → Option (Store × ℕ)
allocate_created_at_time_nanos now s = elim s.st.active_payout_job [
  | none ↦ none
  | some job ↦ some (
    put_job (record job { next_created_at_time_nanos = sat_add (next_created_at_time now job) 1 })
        s,
    next_created_at_time now job,
  )
]

-- A change of the job, when it still has the expected pending transfer.
abbrev pub change_job : ℕ → PendingTransfer → (ActivePayoutJob → ActivePayoutJob) → Store → Store
change_job job_id expected change s =
    at_job (job_with job_id expected s) s (λ job. put_job (change job) s)

unfoldable pub increment_cmc_attempts : ℕ → PendingTransfer → Store → Store
increment_cmc_attempts job_id expected s =
    if not (requires_cmc_notify expected.notification.kind)
    then s
    else change_job job_id expected
        (λ job. record job {
          cmc_attempt_count = some (sat_add (unwrap_or job.cmc_attempt_count 0) 1);
        })
        s

unfoldable pub truncate {ℓ} : {A : Type ℓ} → ℕ → List A → List A
truncate n [] = []
truncate n (x ∷ xs) = let rest = truncate (n - 1) xs in if n == 0 then [] else x ∷ rest

unfoldable pub contains : Principal → List Principal → Bool
contains p [] = false
contains p (q ∷ qs) = (p == q) || contains p qs

abbrev pub witness_pushed : Principal → List Principal → List Principal
witness_pushed p ps =
    if ltb (length ps) max_cmc_diagnostic_witnesses && not (contains p ps) then ps ++ p ∷ [] else ps

abbrev pub with_witness : Principal → ActivePayoutJob → ActivePayoutJob
with_witness p job = record job {
  cmc_attempted_beneficiaries =
      if ltb 0 (unwrap_or job.cmc_success_count 0)
      then some []
      else some (
          witness_pushed p
            (truncate max_cmc_diagnostic_witnesses (unwrap_or job.cmc_attempted_beneficiaries [])));
}

unfoldable pub note_attempted_beneficiary : ℕ → PendingTransfer → Store → Store
note_attempted_beneficiary job_id expected s =
    if not (requires_cmc_notify expected.notification.kind)
    then s
    else change_job job_id expected (with_witness expected.notification.beneficiary) s

unfoldable pub pending_transfer_matches : ℕ → PendingTransfer → Store → Bool
pending_transfer_matches job_id expected s = not (is_none (job_with job_id expected s))

abbrev pub staged_at : PendingNotification → ℕ → PendingTransfer
staged_at pending created_at = record {
  notification = pending;
  created_at_time_nanos = created_at;
  phase = PendingTransferPhase.awaiting_transfer;
}

-- Puts a pending transfer into the job, with a record that nothing of it was dispatched.
abbrev pub put_staged : ActivePayoutJob → PendingTransfer → Store → Store
put_staged job staged s =
    put_job (record job { pending_transfer = some staged })
      (set_pending_transfer_dispatch job.id staged false s)

unfoldable pub stage_pending_transfer : PendingNotification → ℕ → Store → Store
stage_pending_transfer pending created_at s = elim s.st.active_payout_job [
  | none ↦ s
  | some job ↦ put_staged job (staged_at pending created_at) s
]

abbrev pub accepted_at : ℕ → PendingTransfer → PendingTransfer
accepted_at block_index p = record p {
  notification = record p.notification { block_index = block_index };
  phase = PendingTransferPhase.transfer_accepted;
}

abbrev pub with_accepted : PendingTransfer → ActivePayoutJob → ActivePayoutJob
with_accepted accepted job =
    record_ledger_accepted_transfer accepted.notification
      (record job { pending_transfer = some accepted })

unfoldable pub mark_pending_transfer_accepted :
    ℕ → PendingTransfer → ℕ → Store → Store × Option PendingTransfer
mark_pending_transfer_accepted job_id expected block_index s =
    at_job (job_with job_id expected s) (s, none)
      (λ job. (
        put_job (with_accepted (accepted_at block_index expected) job) s,
        some (accepted_at block_index expected),
      ))

pub data PendingTransferTerminalStatus : Type 0 where
  failed ambiguous : PendingTransferTerminalStatus

abbrev pub count_terminal : Bool → PendingTransferTerminalStatus → ActivePayoutJob → ActivePayoutJob
count_terminal false status job = job
count_terminal true PendingTransferTerminalStatus.failed job = record job {
  failed_topups = sat_add job.failed_topups 1;
}
count_terminal true PendingTransferTerminalStatus.ambiguous job = record job {
  ambiguous_topups = sat_add job.ambiguous_topups 1;
}

abbrev pub without_pending : ActivePayoutJob → ActivePayoutJob
without_pending job = record job { pending_transfer = none }

unfoldable pub clear_pending_transfer :
    ℕ → PendingTransfer → PendingTransferTerminalStatus → Store → Store
clear_pending_transfer job_id expected status s = at_job (job_with job_id expected s) s (λ job.
    clear_pending_transfer_dispatch (
      put_job
        (without_pending
          (count_terminal (is_beneficiary_payout expected.notification.kind) status job))
        s))

abbrev pub with_success : Bool → ActivePayoutJob → ActivePayoutJob
with_success false job = job
with_success true job = record job {
  cmc_success_count = some (sat_add (unwrap_or job.cmc_success_count 0) 1);
  cmc_attempted_beneficiaries = some [];
}

abbrev pub with_success_time : Bool → ℕ → Store → Store
with_success_time false now_secs s = s
with_success_time true now_secs s = record s {
  st = record s.st { last_successful_transfer_ts = some now_secs };
}

unfoldable pub record_completed_transfer : ℕ → PendingTransfer → ℕ → Store → Store
record_completed_transfer job_id expected now_secs s = at_job (job_with job_id expected s) s (λ job.
    let notified = requires_cmc_notify expected.notification.kind in
    clear_pending_transfer_dispatch (
      put_job
        (without_pending
          (apply_notified_transfer expected.notification (with_success notified job)))
        (with_success_time notified now_secs s)))
