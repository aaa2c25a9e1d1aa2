-- ===== src/Faucet/Drive/Resume.antt =====
-- The handlers of the replies that `drive_pending_transfer` waits for, and the starts of
-- `drive_pending_transfer` and `send_and_notify`.
use jupiter_faucet_suite.Common.{
  ℕ, Bool, true, false, Option, none, some, ◌==◌, ◌&&◌, ◌||◌, not, if◌then◌else◌, ltb, checked_add,
}
use jupiter_faucet_suite.Ledger.{TransferArg}
use jupiter_faucet_suite.Faucet.State.{PendingTransfer, PendingNotification, ForcedRescueReason}
use jupiter_faucet_suite.Faucet.Dispatch.{Store}
use jupiter_faucet_suite.Faucet.Transfer.{
  allocate_created_at_time_nanos, stage_pending_transfer, mark_pending_transfer_accepted,
  clear_pending_transfer, PendingTransferTerminalStatus, pending_transfer_matches,
}
use jupiter_faucet_suite.Faucet.Fallback.{
  is_beneficiary, latch, stage_raw_fallback_after_definite_rejection, RefundFallbackTransition,
  transition_refunded_beneficiary_to_raw_fallback,
  record_accepted_transfer_with_unusable_block_index,
  reserve_then_clear_ambiguous_awaiting_transfer,
}
use jupiter_faucet_suite.Faucet.Drive.{
  Attempt, Call, Locals, Phase, Replies, NotifyAttemptOutcome, NotifyTopUpError,
  NotifyTerminalError, TransferAttemptOutcome, transfer_once, is_current, set_dispatch_started,
  attempt_transfer, complete, notify, after_accepted, drive_loop, finished_with,
}

abbrev cleared : ℕ → PendingTransfer → PendingTransferTerminalStatus → Store → Store × Phase
cleared job_id expected status s =
    (clear_pending_transfer job_id expected status s, Phase.finished true)

-- The loop's next turn, after a fallback was staged.
abbrev pub continue_with_fallback : Call → Locals → Store → Store × Phase
continue_with_fallback c loc s = drive_loop c (record loc { fallback_transitions = 1 }) s

abbrev pub after_rejection :
    Call → Locals → ℕ → PendingTransfer → Store × Option Bool → Store × Phase
after_rejection c loc job_id expected (s, some true) = continue_with_fallback c loc s
after_rejection c loc job_id expected (s, some false) =
    cleared job_id expected PendingTransferTerminalStatus.failed s
after_rejection c loc job_id expected (s, none) =
    cleared job_id expected PendingTransferTerminalStatus.failed
      (latch ForcedRescueReason.accounting_invariant_broken s)

-- `TransferIdentityOutcome::DefiniteNoDebit`.
unfoldable pub on_definite_no_debit : Call → Locals → ℕ → PendingTransfer → Store → Store × Phase
on_definite_no_debit c loc job_id expected s =
    if loc.fallback_transitions == 0 && is_beneficiary expected.notification.kind
    then after_rejection c loc job_id expected
        (stage_raw_fallback_after_definite_rejection job_id expected c.now_nanos s)
    else cleared job_id expected PendingTransferTerminalStatus.failed s

-- `TransferIdentityOutcome::Uncertain`.
unfoldable pub on_uncertain : ℕ → PendingTransfer → Store → Store × Phase
on_uncertain job_id expected s =
    finished_with (reserve_then_clear_ambiguous_awaiting_transfer job_id expected s)

-- `TransferIdentityOutcome::AcceptedWithUnusableBlockIndex`.
abbrev pub unusable_block : Store × Bool → Store × Phase
unusable_block (s, true) =
    (latch ForcedRescueReason.accounting_invariant_broken s, Phase.finished false)
unusable_block (s, false) = (s, Phase.finished true)

-- `TransferIdentityOutcome::Accepted`.
abbrev pub on_marked : Call → Locals → ℕ → Store × Option PendingTransfer → Store × Phase
on_marked c loc job_id (s, none) = (s, Phase.finished false)
on_marked c loc job_id (s, some sent) = after_accepted c loc job_id sent s

abbrev pub is_last : Attempt → Bool
is_last Attempt.attempt_0 = false
is_last Attempt.attempt_1 = true

-- The loop's next turn, or its end.
abbrev pub next_turn :
    Locals → ℕ → PendingTransfer → Option ℕ → TransferArg → Store → Attempt → Store × Phase
next_turn loc job_id expected lease arg s Attempt.attempt_0 =
    attempt_transfer loc job_id expected lease Attempt.attempt_1 arg s
next_turn loc job_id expected lease arg s Attempt.attempt_1 = on_uncertain job_id expected s

-- After a definite rejection, with the dispatch taken back if nothing earlier is unresolved.
abbrev pub taken_back :
    Call
    → Locals
    → ℕ
    → PendingTransfer
    → Option ℕ
    → Bool
    → Attempt
    → TransferArg
    → Bool
    → Store × Bool
    → Store × Phase
taken_back c loc job_id expected lease prior attempt arg retryable (s, false) =
    (s, Phase.finished false)
taken_back c loc job_id expected lease prior attempt arg retryable (s, true) =
    if not retryable || is_last attempt
    then (if prior
        then on_uncertain job_id expected s
        else on_definite_no_debit c loc job_id expected s)
    else next_turn loc job_id expected lease arg s attempt

abbrev pub on_attempt :
    Call
    → Locals
    → ℕ
    → PendingTransfer
    → Option ℕ
    → Bool
    → Attempt
    → TransferArg
    → TransferAttemptOutcome
    → Store
    → Store × Phase
on_attempt c loc job_id expected lease prior attempt arg (TransferAttemptOutcome.accepted b) s =
    on_marked c loc job_id (mark_pending_transfer_accepted job_id expected b s)
on_attempt c loc job_id expected lease prior attempt arg
      (TransferAttemptOutcome.definite_no_debit r) s =
    taken_back c loc job_id expected lease prior attempt arg r
      (if prior then (s, true) else set_dispatch_started job_id expected lease false s)
on_attempt c loc job_id expected lease prior attempt arg TransferAttemptOutcome.uncertain s =
    next_turn loc job_id expected lease arg s attempt
on_attempt c loc job_id expected lease prior attempt arg
      TransferAttemptOutcome.accepted_with_unusable_block_index s =
    unusable_block (record_accepted_transfer_with_unusable_block_index job_id expected s)

-- A suspended call goes on only under its lease and with its pending transfer in place.
abbrev pub fenced : Option ℕ → ℕ → PendingTransfer → Store → Store × Phase → Store × Phase
fenced lease job_id expected s next =
    if is_current lease s && pending_transfer_matches job_id expected s
    then next
    else (s, Phase.finished false)

abbrev pub on_refund :
    Call → Locals → ℕ → PendingTransfer → Store × RefundFallbackTransition → Store × Phase
on_refund c loc job_id sent (s, RefundFallbackTransition.staged) = continue_with_fallback c loc s
on_refund c loc job_id sent (s, RefundFallbackTransition.below_fee) =
    cleared job_id sent PendingTransferTerminalStatus.failed s
on_refund c loc job_id sent (s, RefundFallbackTransition.invariant_broken) =
    cleared job_id sent PendingTransferTerminalStatus.ambiguous
      (latch ForcedRescueReason.accounting_invariant_broken s)

unfoldable pub is_proven_refund_with_block : NotifyAttemptOutcome → Bool
is_proven_refund_with_block NotifyAttemptOutcome.succeeded = false
is_proven_refund_with_block (NotifyAttemptOutcome.error e) = elim e [
  | NotifyTopUpError.terminal t ↦ elim t [
    | NotifyTerminalError.refunded block ↦ elim block [ none ↦ false | some b ↦ true ]
    | _ ↦ false
  ]
  | _ ↦ false
]

unfoldable pub is_terminal_notify_error : NotifyAttemptOutcome → Bool
is_terminal_notify_error NotifyAttemptOutcome.succeeded = false
is_terminal_notify_error (NotifyAttemptOutcome.error e) = elim e [
  | NotifyTopUpError.terminal t ↦ true
  | _ ↦ false
]

abbrev pub is_succeeded : NotifyAttemptOutcome → Bool
is_succeeded NotifyAttemptOutcome.succeeded = true
is_succeeded (NotifyAttemptOutcome.error e) = false

-- After a notification that neither succeeded nor proved a refund: the second one, or the end.
abbrev pub after_failed_notify :
    Locals
    → ℕ
    → PendingTransfer
    → NotifyAttemptOutcome
    → Store
    → Option NotifyAttemptOutcome
    → Store × Phase
after_failed_notify loc job_id sent outcome s none = notify loc job_id sent (some outcome) s
after_failed_notify loc job_id sent outcome s (some first) =
    cleared job_id sent
      (if is_terminal_notify_error first && is_terminal_notify_error outcome
        then PendingTransferTerminalStatus.failed
        else PendingTransferTerminalStatus.ambiguous)
      s

unfoldable pub on_notify :
    Call
    → Locals
    → ℕ
    → PendingTransfer
    → Option NotifyAttemptOutcome
    → NotifyAttemptOutcome
    → Store
    → Store × Phase
on_notify c loc job_id sent first outcome s =
    if is_succeeded outcome
    then complete c job_id sent s
    else if is_beneficiary sent.notification.kind && is_proven_refund_with_block outcome
    then on_refund c loc job_id sent
        (transition_refunded_beneficiary_to_raw_fallback job_id sent c.fee_e8s c.now_nanos s)
    else after_failed_notify loc job_id sent outcome s first

-- The end of a message: a trap undoes it.
abbrev pub commit : Store → Store × Phase → Store × Phase
commit before (s, Phase.trapped) = (before, Phase.trapped)
commit before (s, phase) = (s, phase)

-- The message that a reply starts.
unfoldable pub resume : Call → Replies → Phase → Store → Store × Phase
resume c replies (Phase.awaiting_transfer loc job_id expected lease prior attempt arg) s =
    commit s (
      fenced lease job_id expected s (
        on_attempt c loc job_id expected lease prior attempt arg (transfer_once replies.transfer)
          s))
resume c replies (Phase.awaiting_claim loc job_id sent neuron_id) s =
    commit s (fenced loc.lease job_id sent s (complete c job_id sent s))
resume c replies (Phase.awaiting_notify loc job_id sent first) s =
    commit s (fenced loc.lease job_id sent s (on_notify c loc job_id sent first replies.notify s))
resume c replies (Phase.finished outcome) s = (s, Phase.finished outcome)
resume c replies Phase.trapped s = (s, Phase.trapped)

-- `drive_pending_transfer` up to its first await.
unfoldable pub drive_pending_transfer : Call → Store → Store × Phase
drive_pending_transfer c s =
    commit s (drive_loop c (record { lease = s.st.main_lock_state_ts; fallback_transitions = 0 }) s)

-- Whether a job's outflow with another payout passes the pot; a sum past u64 does.
abbrev pub passes_pot : Option ℕ → ℕ → Bool
passes_pot none pot = true
passes_pot (some total) pot = ltb pot total

unfoldable pub invariant_broken : PendingNotification → Store → Bool
invariant_broken pending s = elim s.st.active_payout_job [
  | none ↦ false
  | some job ↦
      passes_pot (checked_add job.gross_outflow_e8s pending.gross_share_e8s) job.pot_start_e8s
]

abbrev pub stage_and_drive : Call → PendingNotification → Store → Option (Store × ℕ) → Store × Phase
stage_and_drive c pending s none = (s, Phase.trapped)
stage_and_drive c pending s (some (allocated, created_at)) =
    commit s (drive_pending_transfer c (stage_pending_transfer pending created_at allocated))

-- `send_and_notify` up to its first await.
unfoldable pub send_and_notify : Call → PendingNotification → Store → Store × Phase
send_and_notify c pending s =
    if invariant_broken pending s
    then (latch ForcedRescueReason.accounting_invariant_broken s, Phase.finished false)
    else stage_and_drive c pending s (allocate_created_at_time_nanos c.now_nanos s)
