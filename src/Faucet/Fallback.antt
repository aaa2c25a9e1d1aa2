-- ===== src/Faucet/Fallback.antt =====
-- What replaces or ends a pending transfer (canisters/faucet/src/scheduler/cmc_notify_transfer.rs):
-- the raw fallback after a rejection or a refund, and the reservation of what may have been sent.
pub mod Fresh
use jupiter_faucet_suite.Common.{
  ℕ, ◌+◌, ◌-◌, Bool, true, false, Option, none, some, List, [], ◌==◌, ◌&&◌, not, if◌then◌else◌, leb,
  sat_add, checked_add, checked_sub, checked_mul, holds, ℕ_discrete,
}
use jupiter_faucet_suite.Faucet.State.{
  ActivePayoutJob, PendingTransfer, PendingNotification, PendingTransferPhase, TransferKind,
  ForcedRescueReason, latch_forced_rescue_reason, is_beneficiary_payout,
}
use jupiter_faucet_suite.Faucet.Dispatch.{
  at_job, Store, set_pending_transfer_dispatch, clear_pending_transfer_dispatch, put_job, job_with,
}
use jupiter_faucet_suite.Faucet.Transfer.{
  created_at_time_is_valid_for_ledger, clear_pending_transfer, PendingTransferTerminalStatus,
  staged_at, put_staged, without_pending, count_terminal,
}

abbrev pub is_beneficiary : TransferKind → Bool
is_beneficiary TransferKind.beneficiary = true
is_beneficiary kind = false

abbrev pub is_awaiting : PendingTransferPhase → Bool
is_awaiting PendingTransferPhase.awaiting_transfer = true
is_awaiting PendingTransferPhase.transfer_accepted = false

notification_discrete : Discrete PendingNotification
notification_discrete = hlevel ℕ_discrete

unfoldable pub notification_eq : PendingNotification → PendingNotification → Bool
unfolding notification_discrete
notification_eq a b = holds (notification_discrete a b)

abbrev pub and_then {ℓ} : {A B : Type ℓ} → Option A → (A → Option B) → Option B
and_then none f = none
and_then (some a) f = f a

abbrev fresh_candidate : ℕ → ActivePayoutJob → ℕ
fresh_candidate now job =
    if created_at_time_is_valid_for_ledger job.next_created_at_time_nanos now
    then job.next_created_at_time_nanos
    else now

abbrev checked_fresh : ℕ → ActivePayoutJob → ℕ → Option (ActivePayoutJob × ℕ)
checked_fresh now job created_at =
    if not (created_at_time_is_valid_for_ledger created_at now)
    then none
    else and_then (checked_add created_at 1)
        (λ next. some (record job { next_created_at_time_nanos = next }, created_at))

-- A time that differs from the previous transfer's, so that the ledger sees another transfer.
unfoldable pub fresh_transition_created_at_time :
    ActivePayoutJob → ℕ → ℕ → Option (ActivePayoutJob × ℕ)
fresh_transition_created_at_time job now previous =
    let candidate = fresh_candidate now job in
    and_then (if candidate == previous then checked_add candidate 1 else some candidate)
      (checked_fresh now job)

abbrev pub raw_fallback : ℕ → ℕ → PendingNotification → PendingNotification
raw_fallback gross_share amount n = record n {
  kind = TransferKind.cycles_top_up_raw_fallback;
  gross_share_e8s = gross_share;
  amount_e8s = amount;
  block_index = 0;
  transfer_memo = some [];
  destination_subaccount = none;
  neuron_id = none;
}

abbrev pub same_size_fallback : PendingNotification → PendingNotification
same_size_fallback n = raw_fallback n.gross_share_e8s n.amount_e8s n

abbrev pub stage_fresh :
    PendingNotification → Store → Option (ActivePayoutJob × ℕ) → Store × Option Bool
stage_fresh n s none = (s, none)
stage_fresh n s (some (job, created_at)) = (put_staged job (staged_at n created_at) s, some true)

-- `Err(())` is `none`.
unfoldable pub stage_raw_fallback_after_definite_rejection :
    ℕ → PendingTransfer → ℕ → Store → Store × Option Bool
stage_raw_fallback_after_definite_rejection job_id expected now s =
    at_job (job_with job_id expected s) (s, some false)
      (λ job.
        if is_awaiting expected.phase && is_beneficiary expected.notification.kind
        then stage_fresh (same_size_fallback expected.notification) s
            (fresh_transition_created_at_time job now expected.created_at_time_nanos)
        else (s, some false))

pub data RefundFallbackTransition : Type 0 where
  staged below_fee invariant_broken : RefundFallbackTransition

-- What the refund leaves of the original amount.
unfoldable pub refund_credit_e8s : ℕ → PendingNotification → Option ℕ
refund_credit_e8s fee accepted = and_then (checked_sub accepted.gross_share_e8s fee) (λ original.
    if not (original == accepted.amount_e8s)
    then none
    else and_then (checked_mul fee 2)
        (λ top_up_fee. and_then (checked_sub original fee) (λ value. checked_sub value top_up_fee)))

abbrev pub stage_refund :
    PendingNotification
    → ℕ
    → Store
    → Option (ActivePayoutJob × ℕ)
    → Store × RefundFallbackTransition
stage_refund n released s none = (s, RefundFallbackTransition.invariant_broken)
stage_refund n released s (some (job, created_at)) = (
  put_staged (record job { gross_outflow_e8s = released }) (staged_at n created_at) s,
  RefundFallbackTransition.staged,
)

abbrev release_refund :
    ℕ → ℕ → PendingTransfer → ActivePayoutJob → Store → ℕ → ℕ → Store × RefundFallbackTransition
release_refund fee now expected job s credit released =
    if leb credit fee
    then (
      put_job (record job { gross_outflow_e8s = released }) s,
      RefundFallbackTransition.below_fee,
    )
    else stage_refund (raw_fallback credit (credit - fee) expected.notification) released s
        (fresh_transition_created_at_time job now expected.created_at_time_nanos)

abbrev pub with_credit :
    ℕ → ℕ → PendingTransfer → ActivePayoutJob → Store → Option ℕ → Store × RefundFallbackTransition
with_credit fee now expected job s none = (s, RefundFallbackTransition.invariant_broken)
with_credit fee now expected job s (some credit) =
    if leb credit job.gross_outflow_e8s
    then release_refund fee now expected job s credit (job.gross_outflow_e8s - credit)
    else (s, RefundFallbackTransition.invariant_broken)

abbrev pub refund_to_fallback :
    ℕ
    → ℕ
    → PendingTransfer
    → PendingTransfer
    → ActivePayoutJob
    → Store
    → Store × RefundFallbackTransition
refund_to_fallback fee now expected current job s =
    if not (is_awaiting current.phase)
      && notification_eq current.notification expected.notification
      && is_beneficiary expected.notification.kind
    then with_credit fee now expected job s (refund_credit_e8s fee expected.notification)
    else (s, RefundFallbackTransition.invariant_broken)

-- The match has made the current pending transfer the expected one.
unfoldable pub transition_refunded_beneficiary_to_raw_fallback :
    ℕ → PendingTransfer → ℕ → ℕ → Store → Store × RefundFallbackTransition
transition_refunded_beneficiary_to_raw_fallback job_id expected fee now s =
    at_job (job_with job_id expected s) (s, RefundFallbackTransition.invariant_broken)
      (λ job. refund_to_fallback fee now expected expected job s)

-- `checked_add` and the test against the pot: the outflow with the pending transfer, if it fits.
unfoldable pub reserved_outflow : PendingTransfer → ActivePayoutJob → Option ℕ
reserved_outflow pending job =
    and_then (checked_add job.gross_outflow_e8s pending.notification.gross_share_e8s)
      (λ total. if leb total job.pot_start_e8s then some total else none)

abbrev pub record_unusable : PendingTransfer → ActivePayoutJob → Store → Option ℕ → Store × Bool
record_unusable pending job s none = (s, true)
record_unusable pending job s (some total) = (
  clear_pending_transfer_dispatch (
      put_job
        (without_pending (
          count_terminal (is_beneficiary_payout pending.notification.kind)
            PendingTransferTerminalStatus.ambiguous (record job { gross_outflow_e8s = total })))
        s),
  false,
)

unfoldable pub record_accepted_transfer_with_unusable_block_index :
    ℕ → PendingTransfer → Store → Store × Bool
record_accepted_transfer_with_unusable_block_index job_id expected s =
    at_job (job_with job_id expected s) (s, false)
      (λ job. record_unusable expected job s (reserved_outflow expected job))

pub data AmbiguousPendingGrossReservation : Type 0 where
  not_applicable reserved invariant_broken : AmbiguousPendingGrossReservation

abbrev pub reserve : ActivePayoutJob → Store → Option ℕ → Store × AmbiguousPendingGrossReservation
reserve job s none = (s, AmbiguousPendingGrossReservation.invariant_broken)
reserve job s (some total) = (
  put_job (record job { gross_outflow_e8s = total }) s,
  AmbiguousPendingGrossReservation.reserved,
)

unfoldable pub reserve_ambiguous_awaiting_transfer_gross :
    ℕ → PendingTransfer → Store → Store × AmbiguousPendingGrossReservation
reserve_ambiguous_awaiting_transfer_gross job_id expected s =
    at_job (job_with job_id expected s) (s, AmbiguousPendingGrossReservation.not_applicable)
      (λ job.
        if is_awaiting expected.phase
        then reserve job s (reserved_outflow expected job)
        else (s, AmbiguousPendingGrossReservation.not_applicable))

unfoldable pub latch : ForcedRescueReason → Store → Store
latch reason s = record s { st = latch_forced_rescue_reason reason s.st }

abbrev pub clear_reserved :
    ℕ → PendingTransfer → Store × AmbiguousPendingGrossReservation → Store × Bool
clear_reserved job_id expected (s, AmbiguousPendingGrossReservation.invariant_broken) =
    (latch ForcedRescueReason.accounting_invariant_broken s, false)
clear_reserved job_id expected (s, outcome) =
    (clear_pending_transfer job_id expected PendingTransferTerminalStatus.ambiguous s, true)

unfoldable pub reserve_then_clear_ambiguous_awaiting_transfer :
    ℕ → PendingTransfer → Store → Store × Bool
reserve_then_clear_ambiguous_awaiting_transfer job_id expected s =
    clear_reserved job_id expected (reserve_ambiguous_awaiting_transfer_gross job_id expected s)
