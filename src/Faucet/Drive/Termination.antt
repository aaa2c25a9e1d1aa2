-- ===== src/Faucet/Drive/Termination.antt =====
-- A driven transfer ends after a bounded number of replies.
use jupiter_faucet_suite.Common.{
  ℕ, ◌+◌, ◌≤◌, ◌≡◌, refl, inl, inr, Bool, true, false, Option, none, some, if◌then◌else◌, arith,
  Bool-cases, subst,
}
use jupiter_faucet_suite.Ledger.{TransferArg, Account}
use jupiter_faucet_suite.Faucet.State.{
  PendingTransfer, PendingNotification, PendingTransferPhase, TransferKind, ActivePayoutJob,
  requires_cmc_notify,
}
use jupiter_faucet_suite.Faucet.Dispatch.{Store, current_pending_transfer}
use jupiter_faucet_suite.Faucet.Transfer.{
  staged_at, put_staged, created_at_time_is_valid_for_ledger,
}
use jupiter_faucet_suite.Faucet.Fallback.{
  raw_fallback, same_size_fallback, stage_fresh, is_beneficiary,
  reserve_then_clear_ambiguous_awaiting_transfer,
}
use jupiter_faucet_suite.Faucet.Drive.{
  by_phase, Attempt, transfer_arg, send_to, finished_with, drive_current, dispatched,
  claim_or_complete, Call, Locals, Phase, set_dispatch_started, attempt_transfer, send, complete,
  notify, after_accepted, drive_loop, deposit_account_for_pending,
}
use jupiter_faucet_suite.Faucet.Drive.Resume.{continue_with_fallback, after_rejection}

abbrev pub turns_left : Attempt → ℕ
turns_left Attempt.attempt_0 = 1
turns_left Attempt.attempt_1 = 0

-- How many replies a suspended call can still wait for.
unfoldable pub replies_left : Phase → ℕ
replies_left (Phase.awaiting_transfer loc job_id expected lease prior attempt arg) =
    (if is_beneficiary expected.notification.kind then 6 else 2) + turns_left attempt
replies_left (Phase.awaiting_claim loc job_id sent neuron_id) = 1
replies_left (Phase.awaiting_notify loc job_id sent none) = 5
replies_left (Phase.awaiting_notify loc job_id sent (some first)) = 4
replies_left (Phase.finished outcome) = 0
replies_left Phase.trapped = 0

unfoldable pub AtMost : ℕ → Store × Phase → Type 0
AtMost n result = replies_left result.1 ≤ n

dispatched-AtMost :
    (loc : Locals) (job_id : ℕ) (e : PendingTransfer) (lease : Option ℕ) (prior : Bool)
    (attempt : Attempt) (arg : TransferArg) (n : ℕ) (r : Store × Bool)
    → (if is_beneficiary e.notification.kind then 6 else 2) + turns_left attempt ≤ n
    → AtMost n (dispatched loc job_id e lease prior attempt arg r)
unfolding AtMost replies_left
dispatched-AtMost loc job_id e lease prior attempt arg n (s, true) h = h
dispatched-AtMost loc job_id e lease prior attempt arg n (s, false) h = omega arith

pub AtMost-mono : (n m : ℕ) (r : Store × Phase) → n ≤ m → AtMost n r → AtMost m r
unfolding AtMost
AtMost-mono n m r h k = omega arith

pub attempt_transfer-AtMost :
    (loc : Locals) (job_id : ℕ) (e : PendingTransfer) (lease : Option ℕ) (attempt : Attempt)
    (arg : TransferArg) (s : Store) (n : ℕ)
    → (if is_beneficiary e.notification.kind then 6 else 2) + turns_left attempt ≤ n
    → AtMost n (attempt_transfer loc job_id e lease attempt arg s)
unfolding attempt_transfer
attempt_transfer-AtMost loc job_id e lease attempt arg s n h =
    dispatched-AtMost loc job_id e lease _ attempt arg n
      (set_dispatch_started job_id e lease true s) h

pub after_accepted-AtMost :
    (c : Call) (loc : Locals) (job_id : ℕ) (e : PendingTransfer) (s : Store)
    → AtMost (if is_beneficiary e.notification.kind then 5 else 1) (after_accepted c loc job_id e s)
unfolding after_accepted AtMost replies_left complete notify
after_accepted-AtMost c loc job_id e s = kinds e.notification.kind e.notification.neuron_id
  where
    kinds :
        (k : TransferKind) (id : Option ℕ)
        → replies_left
            (if requires_cmc_notify k
              then notify loc job_id e none s
              else claim_or_complete c loc job_id e s k id).1
          ≤ (if is_beneficiary k then 5 else 1)
    kinds TransferKind.beneficiary id = omega arith
    kinds TransferKind.cycles_top_up_raw_fallback id = omega arith
    kinds TransferKind.raw_icp id = omega arith
    kinds TransferKind.neuron_stake none = omega arith
    kinds TransferKind.neuron_stake (some n) = omega arith
    kinds TransferKind.remainder_to_relay id = omega arith

send_to-AtMost :
    (c : Call) (loc : Locals) (job_id : ℕ) (e : PendingTransfer) (s : Store) (to : Option Account)
    → is_beneficiary e.notification.kind ≡ false
    → AtMost 3 (send_to c loc job_id e s to)
unfolding AtMost replies_left
send_to-AtMost c loc job_id e s none h = omega arith
send_to-AtMost c loc job_id e s (some to) h =
    attempt_transfer-AtMost loc job_id e s.st.main_lock_state_ts Attempt.attempt_0
      (transfer_arg c e to s) s 3 (rw h (omega arith))

pub finished_with-AtMost : (n : ℕ) (r : Store × Bool) → AtMost n (finished_with r)
unfolding AtMost replies_left
finished_with-AtMost n (t, b) = omega arith

pub send_any-AtMost :
    (n : ℕ) (c : Call) (loc : Locals) (job_id : ℕ) (e : PendingTransfer) (s : Store)
    → AtMost n (send_to c loc job_id e s (deposit_account_for_pending c e.notification))
    → AtMost n (send c loc job_id e s)
unfolding send
send_any-AtMost n c loc job_id e s h =
    elim (Bool-cases (created_at_time_is_valid_for_ledger e.created_at_time_nanos c.now_nanos)) [
      | inl v ↦ rw v h
      | inr v ↦
          rw v (finished_with-AtMost n (reserve_then_clear_ambiguous_awaiting_transfer job_id e s))
    ]

-- The loop on a pending transfer that needs no notification.
drive_current-AtMost :
    (c : Call) (loc : Locals) (s : Store) (job_id : ℕ) (e : PendingTransfer)
    → is_beneficiary e.notification.kind ≡ false
    → AtMost 3 (drive_current c loc s (some (job_id, e)))
drive_current-AtMost c loc s job_id e h = phases e.phase
  where
    phases : (p : PendingTransferPhase) → AtMost 3 (by_phase c loc s job_id e p)
    phases PendingTransferPhase.awaiting_transfer =
        send_any-AtMost 3 c loc job_id e s
          (send_to-AtMost c loc job_id e s (deposit_account_for_pending c e.notification) h)
    phases PendingTransferPhase.transfer_accepted =
        AtMost-mono 1 3 (after_accepted c loc job_id e s) (omega arith) (
          subst (λ b. AtMost (if b then 5 else 1) (after_accepted c loc job_id e s)) h
            (after_accepted-AtMost c loc job_id e s))

-- After either fallback the loop goes on with a raw transfer.
pub fallback_loop-AtMost :
    (c : Call) (loc : Locals) (s : Store) (job : ActivePayoutJob) (gross amount at : ℕ)
    (n : PendingNotification)
    → AtMost 3 (
        continue_with_fallback c loc
          (put_staged job (staged_at (raw_fallback gross amount n) at) s))
unfolding drive_loop current_pending_transfer
fallback_loop-AtMost c loc s job gross amount at n =
    drive_current-AtMost c (record loc { fallback_transitions = 1 })
      (put_staged job (staged_at (raw_fallback gross amount n) at) s) job.id
      (staged_at (raw_fallback gross amount n) at) refl

pub after_rejection-AtMost :
    (c : Call) (loc : Locals) (job_id : ℕ) (e : PendingTransfer) (s : Store)
    (fresh : Option (ActivePayoutJob × ℕ))
    → AtMost 3
        (after_rejection c loc job_id e (stage_fresh (same_size_fallback e.notification) s fresh))
unfolding AtMost replies_left
after_rejection-AtMost c loc job_id e s none = omega arith
after_rejection-AtMost c loc job_id e s (some (job, at)) =
    fallback_loop-AtMost c loc s job e.notification.gross_share_e8s e.notification.amount_e8s at
      e.notification
