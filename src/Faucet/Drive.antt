-- ===== src/Faucet/Drive.antt =====
-- `drive_pending_transfer` and `send_and_notify` of canisters/faucet/src/scheduler/
-- cmc_notify_transfer.rs, cut at their awaits. A phase is what a suspended call waits for, with the
-- locals that it keeps; each handler runs from one reply to the next await, on the store at that
-- time, which other calls may have changed. A trap undoes what its message did. The debug build's
-- injections are left out.
pub mod Resume
pub mod Termination
pub mod Turns
pub mod Ending
pub mod Closed
pub mod Preserved
pub mod Displaced
pub mod Unsent
mod Tests
use jupiter_faucet_suite.Common.{
  ℕ, ◌+◌, ◌-◌, ◌%◌, Bool, true, false, Option, none, some, List, [], ◌∷◌, ◌++◌, ◌==◌, ◌&&◌, ◌||◌,
  not, unwrap_or, option_eq, if◌then◌else◌, leb, min, length, replicate, le_bytes, from_be_bytes,
  u64_max, checked_add,
}
use jupiter_faucet_suite.Ledger.{Principal, Account, TransferArg, TransferError, TransferReply}
use jupiter_faucet_suite.Faucet.State.{
  State, ActivePayoutJob, PendingTransfer, PendingNotification, PendingTransferPhase, TransferKind,
  ForcedRescueReason, requires_cmc_notify,
}
use jupiter_faucet_suite.Faucet.Dispatch.{
  Store, set_pending_transfer_dispatch, pending_transfer_may_have_dispatched,
  current_pending_transfer,
}
use jupiter_faucet_suite.Faucet.Transfer.{
  created_at_time_is_valid_for_ledger, allocate_created_at_time_nanos, stage_pending_transfer,
  mark_pending_transfer_accepted, clear_pending_transfer, PendingTransferTerminalStatus,
  pending_transfer_matches, record_completed_transfer, note_attempted_beneficiary,
  increment_cmc_attempts, truncate,
}
use jupiter_faucet_suite.Faucet.Fallback.{
  is_beneficiary, latch, stage_raw_fallback_after_definite_rejection, RefundFallbackTransition,
  transition_refunded_beneficiary_to_raw_fallback,
  record_accepted_transfer_with_unusable_block_index,
  reserve_then_clear_ambiguous_awaiting_transfer,
}

-- The arguments of a call; `as_slice` gives the bytes of a principal, which is outside the
-- repository.
pub record Call : Type 0 where
  pub cmc_id : Principal
  pub fee_e8s : ℕ
  pub now_nanos : ℕ
  pub now_secs : ℕ
  pub as_slice : Principal → List ℕ

-- Its local variables; the lease is a `MainLeaseToken`.
pub record Locals : Type 0 where
  pub lease : Option ℕ
  pub fallback_transitions : ℕ

-- The errors of a notification, without their texts.
pub data NotifyRetryableError : Type 0 where
  processing : NotifyRetryableError
  other : ℕ → NotifyRetryableError

pub data NotifyTerminalError : Type 0 where
  refunded : Option ℕ → NotifyTerminalError
  transaction_too_old : ℕ → NotifyTerminalError
  invalid_transaction : NotifyTerminalError

pub data NotifyTopUpError : Type 0 where
  retryable : NotifyRetryableError → NotifyTopUpError
  terminal : NotifyTerminalError → NotifyTopUpError
  transport decode convert : NotifyTopUpError

pub data NotifyAttemptOutcome : Type 0 where
  succeeded : NotifyAttemptOutcome
  error : NotifyTopUpError → NotifyAttemptOutcome

pub data TransferAttemptOutcome : Type 0 where
  accepted : ℕ → TransferAttemptOutcome
  definite_no_debit : Bool → TransferAttemptOutcome
  uncertain accepted_with_unusable_block_index : TransferAttemptOutcome

-- The two turns of the retry loop.
pub data Attempt : Type 0 where
  attempt_0 attempt_1 : Attempt

-- What is awaited: a transfer with its attempt, the claim of a neuron, a notification with the
-- outcome of the earlier one.
pub data Phase : Type 0 where
  awaiting_transfer : Locals → ℕ → PendingTransfer → Option ℕ → Bool → Attempt → TransferArg → Phase
  awaiting_claim : Locals → ℕ → PendingTransfer → ℕ → Phase
  awaiting_notify : Locals → ℕ → PendingTransfer → Option NotifyAttemptOutcome → Phase
  finished : Bool → Phase
  trapped : Phase

-- What the ledger or the minting canister answers; a claim's answer is not read.
pub record Replies : Type 0 where
  pub transfer : TransferReply
  pub notify : NotifyAttemptOutcome

abbrev pub is_current : Option ℕ → Store → Bool
is_current lease s = option_eq s.st.main_lock_state_ts lease

unfoldable pub principal_to_subaccount : List ℕ → ℕ
principal_to_subaccount bytes =
    from_be_bytes 0 (length bytes % 256 ∷ truncate 31 bytes ++ replicate (31 - length bytes) 0)

abbrev pub memo_top_up_canister_u64 : ℕ
memo_top_up_canister_u64 = 1_347_768_404

unfoldable pub cmc_deposit_account : Call → Principal → Account
cmc_deposit_account c canister_id = record {
  owner = c.cmc_id;
  subaccount = principal_to_subaccount (c.as_slice canister_id);
}

abbrev owned : Principal → ℕ → Account
owned owner subaccount = record { owner = owner; subaccount = subaccount }

-- `none` where the source panics.
unfoldable pub deposit_account_for_pending : Call → PendingNotification → Option Account
deposit_account_for_pending c pending = elim pending.kind [
  | TransferKind.raw_icp ↦
      some (owned pending.beneficiary (unwrap_or pending.destination_subaccount 0))
  | TransferKind.cycles_top_up_raw_fallback ↦ some (owned pending.beneficiary 0)
  | TransferKind.remainder_to_relay ↦ some (owned pending.beneficiary 0)
  | TransferKind.neuron_stake ↦ elim pending.destination_subaccount [
    | none ↦ none
    | some sub ↦ some (owned pending.beneficiary sub)
  ]
  | TransferKind.beneficiary ↦ some (cmc_deposit_account c pending.beneficiary)
]

unfoldable pub transfer_memo_for_pending : PendingNotification → List ℕ
transfer_memo_for_pending pending =
    let default_memo = le_bytes 8 memo_top_up_canister_u64 in
    elim pending.kind [
      | TransferKind.raw_icp ↦ unwrap_or pending.transfer_memo []
      | TransferKind.cycles_top_up_raw_fallback ↦ []
      | TransferKind.remainder_to_relay ↦ []
      | TransferKind.neuron_stake ↦ unwrap_or pending.transfer_memo default_memo
      | TransferKind.beneficiary ↦ unwrap_or pending.transfer_memo default_memo
    ]

unfoldable pub transfer_arg : Call → PendingTransfer → Account → Store → TransferArg
transfer_arg c expected to s = record {
  from_subaccount = s.st.config.payout_subaccount;
  to = to;
  fee = some c.fee_e8s;
  created_at_time = some expected.created_at_time_nanos;
  memo = some (transfer_memo_for_pending expected.notification);
  amount = expected.notification.amount_e8s;
}

abbrev at_block : ℕ → TransferAttemptOutcome
at_block b =
    if leb b u64_max
    then TransferAttemptOutcome.accepted b
    else TransferAttemptOutcome.accepted_with_unusable_block_index

-- `transfer_once`'s reading of the ledger's answer.
unfoldable pub transfer_once : TransferReply → TransferAttemptOutcome
transfer_once TransferReply.call_failed = TransferAttemptOutcome.uncertain
transfer_once (TransferReply.block b) = at_block b
transfer_once (TransferReply.rejected e) = elim e [
  | TransferError.duplicate b ↦ at_block b
  | TransferError.temporarily_unavailable ↦ TransferAttemptOutcome.definite_no_debit true
  | _ ↦ TransferAttemptOutcome.definite_no_debit false
]

unfoldable pub set_dispatch_started : ℕ → PendingTransfer → Option ℕ → Bool → Store → Store × Bool
set_dispatch_started job_id expected lease started s =
    if is_current lease s && pending_transfer_matches job_id expected s
    then (set_pending_transfer_dispatch job_id expected started s, true)
    else (s, false)

abbrev pub dispatched :
    Locals
    → ℕ
    → PendingTransfer
    → Option ℕ
    → Bool
    → Attempt
    → TransferArg
    → Store × Bool
    → Store × Phase
dispatched loc job_id expected lease prior attempt arg (s, false) = (s, Phase.finished false)
dispatched loc job_id expected lease prior attempt arg (s, true) =
    (s, Phase.awaiting_transfer loc job_id expected lease prior attempt arg)

-- One turn of the loop of `transfer_identity_with_one_retry`, up to the transfer's await.
unfoldable pub attempt_transfer :
    Locals → ℕ → PendingTransfer → Option ℕ → Attempt → TransferArg → Store → Store × Phase
attempt_transfer loc job_id expected lease attempt arg s =
    dispatched loc job_id expected lease (pending_transfer_may_have_dispatched job_id expected s)
      attempt arg (set_dispatch_started job_id expected lease true s)

abbrev pub finished_with : Store × Bool → Store × Phase
finished_with (s, outcome) = (s, Phase.finished outcome)

abbrev send_to : Call → Locals → ℕ → PendingTransfer → Store → Option Account → Store × Phase
send_to c loc job_id expected s none = (s, Phase.trapped)
send_to c loc job_id expected s (some to) =
    attempt_transfer loc job_id expected s.st.main_lock_state_ts Attempt.attempt_0
      (transfer_arg c expected to s) s

unfoldable pub send : Call → Locals → ℕ → PendingTransfer → Store → Store × Phase
send c loc job_id expected s =
    if created_at_time_is_valid_for_ledger expected.created_at_time_nanos c.now_nanos
    then send_to c loc job_id expected s (deposit_account_for_pending c expected.notification)
    else finished_with (reserve_then_clear_ambiguous_awaiting_transfer job_id expected s)

unfoldable pub complete : Call → ℕ → PendingTransfer → Store → Store × Phase
complete c job_id sent s = (record_completed_transfer job_id sent c.now_secs s, Phase.finished true)

-- `notify_once` up to its await.
unfoldable pub notify :
    Locals → ℕ → PendingTransfer → Option NotifyAttemptOutcome → Store → Store × Phase
notify loc job_id sent first s = (
  increment_cmc_attempts job_id sent (note_attempted_beneficiary job_id sent s),
  Phase.awaiting_notify loc job_id sent first,
)

abbrev pub claim_or_complete :
    Call → Locals → ℕ → PendingTransfer → Store → TransferKind → Option ℕ → Store × Phase
claim_or_complete c loc job_id sent s TransferKind.neuron_stake (some neuron_id) =
    (s, Phase.awaiting_claim loc job_id sent neuron_id)
claim_or_complete c loc job_id sent s kind neuron_id = complete c job_id sent s

-- What follows an accepted transfer.
unfoldable pub after_accepted : Call → Locals → ℕ → PendingTransfer → Store → Store × Phase
after_accepted c loc job_id sent s =
    if requires_cmc_notify sent.notification.kind
    then notify loc job_id sent none s
    else claim_or_complete c loc job_id sent s sent.notification.kind sent.notification.neuron_id

abbrev by_phase : Call → Locals → Store → ℕ → PendingTransfer → PendingTransferPhase → Store × Phase
by_phase c loc s job_id expected PendingTransferPhase.awaiting_transfer =
    send c loc job_id expected s
by_phase c loc s job_id expected PendingTransferPhase.transfer_accepted =
    after_accepted c loc job_id expected s

abbrev drive_current : Call → Locals → Store → Option (ℕ × PendingTransfer) → Store × Phase
drive_current c loc s none = (s, Phase.finished true)
drive_current c loc s (some (job_id, expected)) = by_phase c loc s job_id expected expected.phase

-- The head of the loop, up to the next await.
unfoldable pub drive_loop : Call → Locals → Store → Store × Phase
drive_loop c loc s = drive_current c loc s (current_pending_transfer s)
