-- ===== src/Faucet/Drive/Preserved.antt =====
-- What every change of a pending transfer keeps is kept by every reply and by every start.
use jupiter_faucet_suite.Common.{
  refl, ◌≡◌, ℕ, inl, inr, Bool, true, false, Option, none, some, ◌==◌, ◌&&◌, ◌||◌, not,
  if◌then◌else◌, Bool-cases,
}
use jupiter_faucet_suite.Faucet.Transfer.{pending_transfer_matches, mark_pending_transfer_accepted}
use jupiter_faucet_suite.Faucet.Fallback.{
  is_awaiting, transition_refunded_beneficiary_to_raw_fallback,
  reserve_then_clear_ambiguous_awaiting_transfer, stage_raw_fallback_after_definite_rejection,
  record_accepted_transfer_with_unusable_block_index, is_beneficiary, RefundFallbackTransition,
}
use jupiter_faucet_suite.Ledger.{TransferArg}
use jupiter_faucet_suite.Faucet.State.{PendingTransfer}
use jupiter_faucet_suite.Faucet.Dispatch.{Store}
use jupiter_faucet_suite.Faucet.Drive.{
  is_current, transfer_once, set_dispatch_started, Call, Locals, Phase, Replies, Attempt,
  TransferAttemptOutcome, NotifyAttemptOutcome,
}
use jupiter_faucet_suite.Faucet.Drive.Resume.{
  is_proven_refund_with_block, on_refund, is_succeeded, is_last, unusable_block, taken_back,
  on_uncertain, on_notify, on_marked, on_definite_no_debit, on_attempt, next_turn, fenced, commit,
  after_rejection, after_failed_notify, resume, drive_pending_transfer,
}
use jupiter_faucet_suite.Faucet.Drive.Closed.{
  is_proper, Good, set_dispatch_started-Closed, notify-Closed, finished_with-Closed,
  complete-Closed, attempt_transfer-Closed, after_accepted-Closed, Closed, drive_loop-Closed,
}

module _ {P : Store → Type 0} (k : Closed P) where
  after_rejection-Closed :
      (c : Call) (loc : Locals) (j : ℕ) (e : PendingTransfer) (r : Store × Option Bool)
      → P r.0
      → Good P (after_rejection c loc j e r)
  after_rejection-Closed c loc j e (s, some true) h = drive_loop-Closed k c _ s h
  after_rejection-Closed c loc j e (s, some false) h = (k.cleared j e _ s h, refl)
  after_rejection-Closed c loc j e (s, none) h = (k.cleared j e _ _ (k.latched _ s h), refl)

  on_definite_no_debit-Closed :
      (c : Call) (loc : Locals) (j : ℕ) (e : PendingTransfer) (s : Store)
      → P s
      → Good P (on_definite_no_debit c loc j e s)
  unfolding on_definite_no_debit
  on_definite_no_debit-Closed c loc j e s h =
      elim (Bool-cases (loc.fallback_transitions == 0 && is_beneficiary e.notification.kind)) [
        | inl v ↦ rw v (
            after_rejection-Closed c loc j e
              (stage_raw_fallback_after_definite_rejection j e c.now_nanos s)
              (k.rejected j e c.now_nanos s h))
        | inr v ↦ rw v (k.cleared j e _ s h, refl)
      ]

  on_uncertain-Closed :
      (j : ℕ) (e : PendingTransfer) (s : Store) → P s → Good P (on_uncertain j e s)
  unfolding on_uncertain
  on_uncertain-Closed j e s h =
      finished_with-Closed k (reserve_then_clear_ambiguous_awaiting_transfer j e s)
        (k.reserved j e s h)

  next_turn-Closed :
      (loc : Locals) (j : ℕ) (e : PendingTransfer) (lease : Option ℕ) (arg : TransferArg)
      (s : Store) (a : Attempt)
      → is_awaiting e.phase ≡ true
      → P s
      → Good P (next_turn loc j e lease arg s a)
  next_turn-Closed loc j e lease arg s Attempt.attempt_0 w h =
      attempt_transfer-Closed k loc j e lease Attempt.attempt_1 arg s w h
  next_turn-Closed loc j e lease arg s Attempt.attempt_1 w h = on_uncertain-Closed j e s h

  taken_end-Closed :
      (c : Call) (loc : Locals) (j : ℕ) (e : PendingTransfer) (prior : Bool) (s : Store)
      → P s
      → Good P (if prior then on_uncertain j e s else on_definite_no_debit c loc j e s)
  taken_end-Closed c loc j e true s h = on_uncertain-Closed j e s h
  taken_end-Closed c loc j e false s h = on_definite_no_debit-Closed c loc j e s h

  taken_back-Closed :
      (c : Call) (loc : Locals) (j : ℕ) (e : PendingTransfer) (lease : Option ℕ) (prior : Bool)
      (a : Attempt) (arg : TransferArg) (retryable : Bool) (r : Store × Bool)
      → is_awaiting e.phase ≡ true
      → P r.0
      → Good P (taken_back c loc j e lease prior a arg retryable r)
  taken_back-Closed c loc j e lease prior a arg retryable (s, false) w h = (h, refl)
  taken_back-Closed c loc j e lease prior a arg retryable (s, true) w h =
      elim (Bool-cases (not retryable || is_last a)) [
        | inl v ↦ rw v (taken_end-Closed c loc j e prior s h)
        | inr v ↦ rw v (next_turn-Closed loc j e lease arg s a w h)
      ]

  unusable_block-Closed : (r : Store × Bool) → P r.0 → Good P (unusable_block r)
  unusable_block-Closed (s, true) h = (k.latched _ s h, refl)
  unusable_block-Closed (s, false) h = (h, refl)

  on_marked-Closed :
      (c : Call) (loc : Locals) (j : ℕ) (r : Store × Option PendingTransfer)
      → P r.0
      → Good P (on_marked c loc j r)
  on_marked-Closed c loc j (s, none) h = (h, refl)
  on_marked-Closed c loc j (s, some e) h = after_accepted-Closed k c loc j e s h

  maybe_taken_back-Closed :
      (j : ℕ) (e : PendingTransfer) (lease : Option ℕ) (prior : Bool) (s : Store)
      → P s
      → P (if prior then (s, true) else set_dispatch_started j e lease false s).0
  maybe_taken_back-Closed j e lease true s h = h
  maybe_taken_back-Closed j e lease false s h = set_dispatch_started-Closed k j e lease false s h

  on_attempt-Closed :
      (c : Call) (loc : Locals) (j : ℕ) (e : PendingTransfer) (lease : Option ℕ) (prior : Bool)
      (a : Attempt) (arg : TransferArg) (o : TransferAttemptOutcome) (s : Store)
      → is_awaiting e.phase ≡ true
      → P s
      → Good P (on_attempt c loc j e lease prior a arg o s)
  on_attempt-Closed c loc j e lease prior a arg (TransferAttemptOutcome.accepted b) s w h =
      on_marked-Closed c loc j (mark_pending_transfer_accepted j e b s) (k.marked j e b s w h)
  on_attempt-Closed c loc j e lease prior a arg (TransferAttemptOutcome.definite_no_debit r) s w h =
      taken_back-Closed c loc j e lease prior a arg r _ w
        (maybe_taken_back-Closed j e lease prior s h)
  on_attempt-Closed c loc j e lease prior a arg TransferAttemptOutcome.uncertain s w h =
      next_turn-Closed loc j e lease arg s a w h
  on_attempt-Closed c loc j e lease prior a arg
        TransferAttemptOutcome.accepted_with_unusable_block_index s w h =
      unusable_block-Closed (record_accepted_transfer_with_unusable_block_index j e s)
        (k.unusable j e s h)

  on_refund-Closed :
      (c : Call) (loc : Locals) (j : ℕ) (e : PendingTransfer) (r : Store × RefundFallbackTransition)
      → P r.0
      → Good P (on_refund c loc j e r)
  on_refund-Closed c loc j e (s, RefundFallbackTransition.staged) h = drive_loop-Closed k c _ s h
  on_refund-Closed c loc j e (s, RefundFallbackTransition.below_fee) h = (k.cleared j e _ s h, refl)
  on_refund-Closed c loc j e (s, RefundFallbackTransition.invariant_broken) h =
      (k.cleared j e _ _ (k.latched _ s h), refl)

  after_failed_notify-Closed :
      (loc : Locals) (j : ℕ) (e : PendingTransfer) (o : NotifyAttemptOutcome) (s : Store)
      (f : Option NotifyAttemptOutcome)
      → P s
      → Good P (after_failed_notify loc j e o s f)
  after_failed_notify-Closed loc j e o s none h = notify-Closed k loc j e (some o) s h
  after_failed_notify-Closed loc j e o s (some f) h = (k.cleared j e _ s h, refl)

  on_notify-Closed :
      (c : Call) (loc : Locals) (j : ℕ) (e : PendingTransfer) (f : Option NotifyAttemptOutcome)
      (o : NotifyAttemptOutcome) (s : Store)
      → P s
      → Good P (on_notify c loc j e f o s)
  unfolding on_notify
  on_notify-Closed c loc j e f o s h = elim (Bool-cases (is_succeeded o)) [
    | inl v ↦ rw v (complete-Closed k c j e s h)
    | inr v ↦
        rw v
          (elim (Bool-cases (is_beneficiary e.notification.kind && is_proven_refund_with_block o)) [
            | inl w ↦ rw w (
                on_refund-Closed c loc j e
                  (transition_refunded_beneficiary_to_raw_fallback j e c.fee_e8s c.now_nanos s)
                  (k.refunded j e c.fee_e8s c.now_nanos s h))
            | inr w ↦ rw w (after_failed_notify-Closed loc j e o s f h)
          ])
  ]

  pub commit-Closed :
      (before : Store) (r : Store × Phase) → P before → Good P r → Good P (commit before r)
  commit-Closed before (s, Phase.trapped) hb h = (hb, refl)
  commit-Closed before (s, Phase.finished b) hb h = h
  commit-Closed before (s, Phase.awaiting_transfer l j e lease prior a arg) hb h = h
  commit-Closed before (s, Phase.awaiting_claim l j e id) hb h = h
  commit-Closed before (s, Phase.awaiting_notify l j e f) hb h = h

  fenced-Closed :
      (lease : Option ℕ) (j : ℕ) (e : PendingTransfer) (s : Store) (next : Store × Phase)
      → P s
      → Good P next
      → Good P (fenced lease j e s next)
  fenced-Closed lease j e s next hs h =
      elim (Bool-cases (is_current lease s && pending_transfer_matches j e s)) [
        | inl v ↦ rw v h
        | inr v ↦ rw v (hs, refl)
      ]

  pub resume-Closed :
      (c : Call) (r : Replies) (p : Phase) (s : Store)
      → is_proper p ≡ true
      → P s
      → Good P (resume c r p s)
  unfolding resume
  resume-Closed c r (Phase.awaiting_transfer l j e lease prior a arg) s w h = commit-Closed s _ h (
      fenced-Closed lease j e s _ h
        (on_attempt-Closed c l j e lease prior a arg (transfer_once r.transfer) s w h))
  resume-Closed c r (Phase.awaiting_claim l j e id) s w h =
      commit-Closed s _ h (fenced-Closed l.lease j e s _ h (complete-Closed k c j e s h))
  resume-Closed c r (Phase.awaiting_notify l j e f) s w h =
      commit-Closed s _ h
        (fenced-Closed l.lease j e s _ h (on_notify-Closed c l j e f r.notify s h))
  resume-Closed c r (Phase.finished b) s w h = (h, refl)
  resume-Closed c r Phase.trapped s w h = (h, refl)

  pub drive_pending_transfer-Closed :
      (c : Call) (s : Store) → P s → Good P (drive_pending_transfer c s)
  unfolding drive_pending_transfer
  drive_pending_transfer-Closed c s h = commit-Closed s _ h (drive_loop-Closed k c _ s h)
