-- ===== src/Faucet/Drive/Closed.antt =====
-- A predicate on the store that every change of a pending transfer keeps is kept by every message
-- of a driven transfer.
use jupiter_faucet_suite.Common.{
  refl, ap, ◌≡◌, ℕ, inl, inr, Bool, true, false, Option, none, some, ◌&&◌, Bool-cases,
}
use jupiter_faucet_suite.Faucet.Fallback.{
  is_awaiting, latch, reserve_then_clear_ambiguous_awaiting_transfer,
  record_accepted_transfer_with_unusable_block_index,
  transition_refunded_beneficiary_to_raw_fallback, stage_raw_fallback_after_definite_rejection,
}
use jupiter_faucet_suite.Ledger.{TransferArg, Account}
use jupiter_faucet_suite.Faucet.State.{
  requires_cmc_notify, PendingTransfer, PendingTransferPhase, TransferKind, ForcedRescueReason,
}
use jupiter_faucet_suite.Faucet.Dispatch.{
  current_pending_transfer, Store, set_pending_transfer_dispatch,
}
use jupiter_faucet_suite.Faucet.Transfer.{
  pending_transfer_matches, created_at_time_is_valid_for_ledger, mark_pending_transfer_accepted,
  clear_pending_transfer, PendingTransferTerminalStatus, record_completed_transfer,
  note_attempted_beneficiary, increment_cmc_attempts,
}
use jupiter_faucet_suite.Faucet.Drive.{
  by_phase, deposit_account_for_pending, is_current, set_dispatch_started, send_to, send, notify,
  finished_with, drive_current, dispatched, complete, claim_or_complete, attempt_transfer,
  after_accepted, Call, Locals, Phase, Attempt, NotifyAttemptOutcome, drive_loop,
}

pub record Closed (P : Store → Type 0) : Type 0 where
  pub set_dispatched :
      (j : ℕ) (e : PendingTransfer) (b : Bool) (s : Store)
      → P s
      → P (set_pending_transfer_dispatch j e b s)
  pub cleared :
      (j : ℕ) (e : PendingTransfer) (t : PendingTransferTerminalStatus) (s : Store)
      → P s
      → P (clear_pending_transfer j e t s)
  pub marked :
      (j : ℕ) (e : PendingTransfer) (b : ℕ) (s : Store)
      → is_awaiting e.phase ≡ true
      → P s
      → P (mark_pending_transfer_accepted j e b s).0
  pub rejected :
      (j : ℕ) (e : PendingTransfer) (now : ℕ) (s : Store)
      → P s
      → P (stage_raw_fallback_after_definite_rejection j e now s).0
  pub refunded :
      (j : ℕ) (e : PendingTransfer) (fee now : ℕ) (s : Store)
      → P s
      → P (transition_refunded_beneficiary_to_raw_fallback j e fee now s).0
  pub unusable :
      (j : ℕ) (e : PendingTransfer) (s : Store)
      → P s
      → P (record_accepted_transfer_with_unusable_block_index j e s).0
  pub reserved :
      (j : ℕ) (e : PendingTransfer) (s : Store)
      → P s
      → P (reserve_then_clear_ambiguous_awaiting_transfer j e s).0
  pub latched : (r : ForcedRescueReason) (s : Store) → P s → P (latch r s)
  pub completed :
      (j : ℕ) (e : PendingTransfer) (now : ℕ) (s : Store)
      → P s
      → P (record_completed_transfer j e now s)
  pub noted : (j : ℕ) (e : PendingTransfer) (s : Store) → P s → P (note_attempted_beneficiary j e s)
  pub incremented :
      (j : ℕ) (e : PendingTransfer) (s : Store) → P s → P (increment_cmc_attempts j e s)

-- A suspended transfer is of a pending transfer that was not accepted.
abbrev pub is_proper : Phase → Bool
is_proper (Phase.awaiting_transfer loc j e lease prior a arg) = is_awaiting e.phase
is_proper p = true

-- The predicate on the store, with a proper phase.
abbrev pub Good : (Store → Type 0) → Store × Phase → Type 0
Good P r = P r.0 × (is_proper r.1 ≡ true)

module _ {P : Store → Type 0} (k : Closed P) where
  pub set_dispatch_started-Closed :
      (j : ℕ) (e : PendingTransfer) (lease : Option ℕ) (b : Bool) (s : Store)
      → P s
      → P (set_dispatch_started j e lease b s).0
  unfolding set_dispatch_started
  set_dispatch_started-Closed j e lease b s h =
      elim (Bool-cases (is_current lease s && pending_transfer_matches j e s)) [
        | inl v ↦ rw v (k.set_dispatched j e b s h)
        | inr v ↦ rw v h
      ]

  dispatched-Closed :
      (loc : Locals) (j : ℕ) (e : PendingTransfer) (lease : Option ℕ) (prior : Bool) (a : Attempt)
      (arg : TransferArg) (r : Store × Bool)
      → is_awaiting e.phase ≡ true
      → P r.0
      → Good P (dispatched loc j e lease prior a arg r)
  dispatched-Closed loc j e lease prior a arg (s, true) w h = (h, w)
  dispatched-Closed loc j e lease prior a arg (s, false) w h = (h, refl)

  pub attempt_transfer-Closed :
      (loc : Locals) (j : ℕ) (e : PendingTransfer) (lease : Option ℕ) (a : Attempt)
      (arg : TransferArg) (s : Store)
      → is_awaiting e.phase ≡ true
      → P s
      → Good P (attempt_transfer loc j e lease a arg s)
  unfolding attempt_transfer
  attempt_transfer-Closed loc j e lease a arg s w h =
      dispatched-Closed loc j e lease _ a arg (set_dispatch_started j e lease true s) w
        (set_dispatch_started-Closed j e lease true s h)

  pub finished_with-Closed : (r : Store × Bool) → P r.0 → Good P (finished_with r)
  finished_with-Closed (s, b) h = (h, refl)

  pub notify-Closed :
      (loc : Locals) (j : ℕ) (e : PendingTransfer) (f : Option NotifyAttemptOutcome) (s : Store)
      → P s
      → Good P (notify loc j e f s)
  unfolding notify
  notify-Closed loc j e f s h = (k.incremented j e _ (k.noted j e s h), refl)

  pub complete-Closed :
      (c : Call) (j : ℕ) (e : PendingTransfer) (s : Store) → P s → Good P (complete c j e s)
  unfolding complete
  complete-Closed c j e s h = (k.completed j e c.now_secs s h, refl)

  claim_or_complete-Closed :
      (c : Call) (loc : Locals) (j : ℕ) (e : PendingTransfer) (s : Store) (kind : TransferKind)
      (id : Option ℕ)
      → P s
      → Good P (claim_or_complete c loc j e s kind id)
  claim_or_complete-Closed c loc j e s TransferKind.neuron_stake (some id) h = (h, refl)
  claim_or_complete-Closed c loc j e s TransferKind.neuron_stake none h = complete-Closed c j e s h
  claim_or_complete-Closed c loc j e s TransferKind.beneficiary id h = complete-Closed c j e s h
  claim_or_complete-Closed c loc j e s TransferKind.cycles_top_up_raw_fallback id h =
      complete-Closed c j e s h
  claim_or_complete-Closed c loc j e s TransferKind.raw_icp id h = complete-Closed c j e s h
  claim_or_complete-Closed c loc j e s TransferKind.remainder_to_relay id h =
      complete-Closed c j e s h

  pub after_accepted-Closed :
      (c : Call) (loc : Locals) (j : ℕ) (e : PendingTransfer) (s : Store)
      → P s
      → Good P (after_accepted c loc j e s)
  unfolding after_accepted
  after_accepted-Closed c loc j e s h =
      elim (Bool-cases (requires_cmc_notify e.notification.kind)) [
        | inl v ↦ rw v (notify-Closed loc j e none s h)
        | inr v ↦ rw v (claim_or_complete-Closed c loc j e s e.notification.kind _ h)
      ]

  send_to-Closed :
      (c : Call) (loc : Locals) (j : ℕ) (e : PendingTransfer) (s : Store) (to : Option Account)
      → is_awaiting e.phase ≡ true
      → P s
      → Good P (send_to c loc j e s to)
  send_to-Closed c loc j e s none w h = (h, refl)
  send_to-Closed c loc j e s (some to) w h = attempt_transfer-Closed loc j e _ _ _ s w h

  send-Closed :
      (c : Call) (loc : Locals) (j : ℕ) (e : PendingTransfer) (s : Store)
      → is_awaiting e.phase ≡ true
      → P s
      → Good P (send c loc j e s)
  unfolding send
  send-Closed c loc j e s w h =
      elim (Bool-cases (created_at_time_is_valid_for_ledger e.created_at_time_nanos c.now_nanos)) [
        | inl v ↦
            rw v (send_to-Closed c loc j e s (deposit_account_for_pending c e.notification) w h)
        | inr v ↦ rw v (
            finished_with-Closed (reserve_then_clear_ambiguous_awaiting_transfer j e s)
              (k.reserved j e s h))
      ]

  drive_current-Closed :
      (c : Call) (loc : Locals) (s : Store) (o : Option (ℕ × PendingTransfer))
      → P s
      → Good P (drive_current c loc s o)
  drive_current-Closed c loc s none h = (h, refl)
  drive_current-Closed c loc s (some (j, e)) h = phases e.phase refl
    where
      phases : (p : PendingTransferPhase) → e.phase ≡ p → Good P (by_phase c loc s j e p)
      phases PendingTransferPhase.awaiting_transfer q = send-Closed c loc j e s (ap is_awaiting q) h
      phases PendingTransferPhase.transfer_accepted q = after_accepted-Closed c loc j e s h

  pub drive_loop-Closed : (c : Call) (loc : Locals) (s : Store) → P s → Good P (drive_loop c loc s)
  unfolding drive_loop
  drive_loop-Closed c loc s h = drive_current-Closed c loc s (current_pending_transfer s) h
