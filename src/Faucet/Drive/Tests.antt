-- ===== src/Faucet/Drive/Tests.antt =====
-- The theorems on driven transfers, at a concrete job.
use jupiter_faucet_suite.Common.{◌≡◌, refl, inl, true, false, none, some, List, [], ◌∷◌, arith}
use jupiter_faucet_suite.Faucet.Pot.Answers.{all_proper, AllKeep}
use jupiter_faucet_suite.Faucet.Pot.Driven.{Reaches, interleaved-WithinPot}
use jupiter_faucet_suite.Faucet.Pot.{pot_e8s, WithinPot}
use jupiter_faucet_suite.Faucet.Fallback.{same_size_fallback}
use jupiter_faucet_suite.Faucet.Transfer.{
  next_created_at_time, stage_pending_transfer, staged_at, created_at_time_is_valid_for_ledger,
  pending_transfer_matches,
}
use jupiter_faucet_suite.Faucet.State.Equality.{pending_eq_iff, pending_eq}
use jupiter_faucet_suite.Faucet.Fixtures.{account, config}
use jupiter_faucet_suite.Ledger.{TransferArg, TransferError, TransferReply}
use jupiter_faucet_suite.Faucet.State.{
  new, new_job, ActivePayoutJob, PendingNotification, PendingTransfer, PendingTransferPhase,
  TransferKind,
}
use jupiter_faucet_suite.Faucet.Dispatch.{
  current_pending_transfer, set_pending_transfer_dispatch, at_job, job_with, Store,
}
use jupiter_faucet_suite.Faucet.Drive.{
  deposit_account_for_pending, attempt_transfer, send, drive_loop, set_dispatch_started, Attempt,
  Call, Locals, Phase, Replies, NotifyAttemptOutcome, NotifyTopUpError,
}
use jupiter_faucet_suite.Faucet.Drive.Resume.{
  invariant_broken, drive_pending_transfer, send_and_notify, resume,
}
use jupiter_faucet_suite.Faucet.Drive.Ending.{Step, run, is_over, drive_ends}
use jupiter_faucet_suite.Faucet.Drive.Displaced.{resume-Displaced}

abbrev payout : PendingNotification
payout = record {
  kind = TransferKind.beneficiary;
  beneficiary = 7;
  gross_share_e8s = 1_000_000;
  amount_e8s = 990_000;
  block_index = 0;
  next_start = none;
  transfer_memo = none;
  destination_subaccount = none;
  neuron_id = none;
}

abbrev awaiting : PendingTransfer
awaiting = record {
  notification = payout;
  created_at_time_nanos = 1_000;
  phase = PendingTransferPhase.awaiting_transfer;
}

abbrev job : ActivePayoutJob
job = record (new_job 1 10_000 5_000_000 100 1_001) { pending_transfer = some awaiting }

abbrev store : Store
store = record {
  st = record (new config 0) { active_payout_job = some job; main_lock_state_ts = some 100 };
  dispatch = none;
}

abbrev call : Call
call = record {
  cmc_id = 4;
  fee_e8s = 10_000;
  now_nanos = 2_000;
  now_secs = 0;
  as_slice = λ p. p ∷ [];
}

abbrev refusal : Replies
refusal = record {
  transfer = TransferReply.rejected TransferError.generic_error;
  notify = NotifyAttemptOutcome.error NotifyTopUpError.transport;
}

abbrev step : Step
step = record { others = λ s. s; replies = refusal }

abbrev steps : List Step
steps = step ∷ step ∷ step ∷ step ∷ step ∷ step ∷ step ∷ []

drive_ends_example :
    (is_over (run call steps (drive_pending_transfer call store)).1 ≡ true)
    × (is_over (run call steps (send_and_notify call payout store)).1 ≡ true)
drive_ends_example = drive_ends call payout store steps (omega arith)

abbrev locals : Locals
locals = record { lease = some 99; fallback_transitions = 0 }

-- The lock was taken anew at 100 while the claim under the lock of 99 was awaited.
resume-Displaced_example :
    resume call refusal (Phase.awaiting_claim locals 1 awaiting 8) store
    ≡ (store, Phase.finished false)
resume-Displaced_example =
    resume-Displaced call refusal (Phase.awaiting_claim locals 1 awaiting 8) store
      (inl (λ h. ground arith))

abbrev staged_fallback : PendingTransfer
staged_fallback = staged_at (same_size_fallback payout) 1_001

-- The transfer was staged, and its first attempt is dispatched.
abbrev staged_store : Store
staged_store = record store {
  dispatch = some (record { job_id = 1; pending = awaiting; dispatched = false });
}

abbrev first_arg : TransferArg
first_arg = record {
  from_subaccount = none;
  to = account;
  fee = some 10_000;
  created_at_time = some 1_000;
  memo = some [];
  amount = 990_000;
}

-- The phase that waits for it.
abbrev sent_phase : Phase
sent_phase =
    Phase.awaiting_transfer (record locals { lease = some 100 }) 1 awaiting (some 100) false
      Attempt.attempt_0 first_arg

abbrev idle_store : Store
idle_store = record store {
  st = record store.st { active_payout_job = some (record job { pending_transfer = none }) };
}

idle_store-WithinPot : WithinPot idle_store
unfolding WithinPot new_job
idle_store-WithinPot = omega arith

-- Two calls at once: one sends a new transfer, the other drives it.
two_calls :
    Reaches idle_store (drive_pending_transfer call (send_and_notify call payout idle_store).0).0 (
      (call, (drive_pending_transfer call (send_and_notify call payout idle_store).0).1)
      ∷ (call, (send_and_notify call payout idle_store).1)
      ∷ [])
unfolding current_pending_transfer
two_calls = Reaches.drives call (Reaches.sends call payout refl Reaches.begins)

abbrev sent : PendingTransfer
sent = staged_at payout 1_001

matched_sent : pending_eq (some sent) (some sent) ≡ true
matched_sent = (pending_eq_iff (some sent) (some sent)).1 refl

two_calls_pot :
    pot_e8s
      (drive_pending_transfer call
        (send_and_notify call payout idle_store).0).0.st.active_payout_job
    ≡ 5_000_000
unfolding send_and_notify invariant_broken next_created_at_time stage_pending_transfer
    set_pending_transfer_dispatch drive_pending_transfer drive_loop current_pending_transfer send
    deposit_account_for_pending created_at_time_is_valid_for_ledger attempt_transfer
    set_dispatch_started pending_transfer_matches job_with at_job new_job
two_calls_pot = rw (matched_sent, matched_sent) refl

interleaved-WithinPot_example :
    WithinPot (drive_pending_transfer call (send_and_notify call payout idle_store).0).0
    × (all_proper (
          (call, (drive_pending_transfer call (send_and_notify call payout idle_store).0).1)
          ∷ (call, (send_and_notify call payout idle_store).1)
          ∷ [])
        ≡ true)
    × AllKeep refusal (drive_pending_transfer call (send_and_notify call payout idle_store).0).0 (
        (call, (drive_pending_transfer call (send_and_notify call payout idle_store).0).1)
        ∷ (call, (send_and_notify call payout idle_store).1)
        ∷ [])
interleaved-WithinPot_example =
    interleaved-WithinPot idle_store _ _ refusal idle_store-WithinPot
      (rw two_calls_pot (omega arith)) two_calls
