-- ===== src/Faucet/Drive/Turns.antt =====
-- How many replies remain after each outcome of a transfer and of a notification.
use jupiter_faucet_suite.Common.{
  leb, ℕ, ◌+◌, ◌-◌, ◌≤◌, ◌≡◌, inl, inr, Bool, true, false, Option, none, some, ◌==◌, ◌&&◌, not,
  if◌then◌else◌, arith, Bool-cases,
}
use jupiter_faucet_suite.Faucet.Drive.Termination.{
  fallback_loop-AtMost, after_rejection-AtMost, after_accepted-AtMost, replies_left,
  finished_with-AtMost, attempt_transfer-AtMost, AtMost-mono, turns_left, AtMost,
}
use jupiter_faucet_suite.Ledger.{TransferArg}
use jupiter_faucet_suite.Faucet.State.{PendingTransfer, ActivePayoutJob}
use jupiter_faucet_suite.Faucet.Dispatch.{at_job, put_job, Store, job_with}
use jupiter_faucet_suite.Faucet.Transfer.{
  accepted_at, with_accepted, mark_pending_transfer_accepted,
}
use jupiter_faucet_suite.Faucet.Fallback.{
  notification_eq, refund_to_fallback, with_credit, stage_refund, is_awaiting, raw_fallback,
  same_size_fallback, stage_fresh, is_beneficiary, stage_raw_fallback_after_definite_rejection,
  fresh_transition_created_at_time, transition_refunded_beneficiary_to_raw_fallback,
  RefundFallbackTransition, refund_credit_e8s, reserve_then_clear_ambiguous_awaiting_transfer,
  record_accepted_transfer_with_unusable_block_index,
}
use jupiter_faucet_suite.Faucet.Drive.{
  Attempt, Call, Locals, NotifyAttemptOutcome, TransferAttemptOutcome, set_dispatch_started,
  complete, notify,
}
use jupiter_faucet_suite.Faucet.Drive.Resume.{
  unusable_block, is_proven_refund_with_block, is_succeeded, after_failed_notify, on_refund,
  on_marked, on_attempt, taken_back, next_turn, after_rejection, on_definite_no_debit, on_uncertain,
  on_notify,
}

on_definite_no_debit-AtMost :
    (c : Call) (loc : Locals) (job_id : ℕ) (e : PendingTransfer) (s : Store)
    → AtMost
        (if is_beneficiary e.notification.kind then 3 else 0)
        (on_definite_no_debit c loc job_id e s)
unfolding on_definite_no_debit stage_raw_fallback_after_definite_rejection AtMost replies_left
    at_job
on_definite_no_debit-AtMost c loc job_id e s =
    elim (Bool-cases (loc.fallback_transitions == 0 && is_beneficiary e.notification.kind)) [
      | inl v ↦ rw v (
          let b : is_beneficiary e.notification.kind ≡ true = ground arith in
          AtMost-mono 3 (if is_beneficiary e.notification.kind then 3 else 0)
            (after_rejection c loc job_id e
              (stage_raw_fallback_after_definite_rejection job_id e c.now_nanos s))
            (rw b (omega arith)) (jobs (job_with job_id e s)))
      | inr v ↦ rw v (omega arith)
    ]
  where
    jobs :
        (o : Option ActivePayoutJob)
        → AtMost 3 (
            after_rejection c loc job_id e (
              at_job o
                (s, some false)
                (λ job.
                  if is_awaiting e.phase && is_beneficiary e.notification.kind
                  then stage_fresh
                      (same_size_fallback e.notification)
                      s
                      (fresh_transition_created_at_time job c.now_nanos e.created_at_time_nanos)
                  else (s, some false))))
    jobs none = omega arith
    jobs (some job) =
        elim (Bool-cases (is_awaiting e.phase && is_beneficiary e.notification.kind)) [
          | inl v ↦ rw v (
              after_rejection-AtMost c loc job_id e s
                (fresh_transition_created_at_time job c.now_nanos e.created_at_time_nanos))
          | inr v ↦ rw v (omega arith)
        ]

-- The bound of what follows a turn: below `replies_left` of the turn itself.
abbrev after_turn : PendingTransfer → Attempt → ℕ
after_turn e attempt = (if is_beneficiary e.notification.kind then 5 else 1) + turns_left attempt

on_uncertain-AtMost :
    (n : ℕ) (job_id : ℕ) (e : PendingTransfer) (s : Store) → AtMost n (on_uncertain job_id e s)
unfolding on_uncertain
on_uncertain-AtMost n job_id e s =
    finished_with-AtMost n (reserve_then_clear_ambiguous_awaiting_transfer job_id e s)

taken_end-AtMost :
    (c : Call) (loc : Locals) (job_id : ℕ) (e : PendingTransfer) (prior : Bool) (s : Store) (n : ℕ)
    → (if is_beneficiary e.notification.kind then 3 else 0) ≤ n
    → AtMost n (if prior then on_uncertain job_id e s else on_definite_no_debit c loc job_id e s)
taken_end-AtMost c loc job_id e true s n h = on_uncertain-AtMost n job_id e s
taken_end-AtMost c loc job_id e false s n h =
    AtMost-mono _ n (on_definite_no_debit c loc job_id e s) h
      (on_definite_no_debit-AtMost c loc job_id e s)

next_turn-AtMost :
    (loc : Locals) (job_id : ℕ) (e : PendingTransfer) (lease : Option ℕ) (arg : TransferArg)
    (s : Store) (attempt : Attempt)
    → AtMost (after_turn e attempt) (next_turn loc job_id e lease arg s attempt)
next_turn-AtMost loc job_id e lease arg s Attempt.attempt_0 =
    attempt_transfer-AtMost loc job_id e lease Attempt.attempt_1 arg s
      (after_turn e Attempt.attempt_0) (ground arith)
next_turn-AtMost loc job_id e lease arg s Attempt.attempt_1 =
    on_uncertain-AtMost (after_turn e Attempt.attempt_1) job_id e s

taken_back-AtMost :
    (c : Call) (loc : Locals) (job_id : ℕ) (e : PendingTransfer) (lease : Option ℕ) (prior : Bool)
    (attempt : Attempt) (arg : TransferArg) (retryable : Bool) (r : Store × Bool)
    → AtMost (after_turn e attempt) (taken_back c loc job_id e lease prior attempt arg retryable r)
unfolding AtMost replies_left
taken_back-AtMost c loc job_id e lease prior attempt arg retryable (s, false) = omega arith
taken_back-AtMost c loc job_id e lease prior attempt arg false (s, true) =
    taken_end-AtMost c loc job_id e prior s (after_turn e attempt) (ground arith)
taken_back-AtMost c loc job_id e lease prior Attempt.attempt_1 arg true (s, true) =
    taken_end-AtMost c loc job_id e prior s (after_turn e Attempt.attempt_1) (ground arith)
taken_back-AtMost c loc job_id e lease prior Attempt.attempt_0 arg true (s, true) =
    next_turn-AtMost loc job_id e lease arg s Attempt.attempt_0

on_marked-AtMost :
    (c : Call) (loc : Locals) (job_id : ℕ) (e : PendingTransfer) (b : ℕ) (s : Store)
    → AtMost
        (if is_beneficiary e.notification.kind then 5 else 1)
        (on_marked c loc job_id (mark_pending_transfer_accepted job_id e b s))
unfolding mark_pending_transfer_accepted AtMost replies_left at_job
on_marked-AtMost c loc job_id e b s = jobs (job_with job_id e s)
  where
    jobs :
        (o : Option ActivePayoutJob)
        → AtMost (if is_beneficiary e.notification.kind then 5 else 1) (
            on_marked c loc job_id (
              at_job o
                (s, none)
                (λ job. (put_job (with_accepted (accepted_at b e) job) s, some (accepted_at b e)))))
    jobs none = omega arith
    jobs (some job) =
        after_accepted-AtMost c loc job_id (accepted_at b e)
          (put_job (with_accepted (accepted_at b e) job) s)

unusable_block-AtMost : (n : ℕ) (r : Store × Bool) → AtMost n (unusable_block r)
unfolding AtMost replies_left
unusable_block-AtMost n (s, true) = omega arith
unusable_block-AtMost n (s, false) = omega arith

pub on_attempt-AtMost :
    (c : Call) (loc : Locals) (job_id : ℕ) (e : PendingTransfer) (lease : Option ℕ) (prior : Bool)
    (attempt : Attempt) (arg : TransferArg) (outcome : TransferAttemptOutcome) (s : Store)
    → AtMost (after_turn e attempt) (on_attempt c loc job_id e lease prior attempt arg outcome s)
on_attempt-AtMost c loc job_id e lease prior attempt arg (TransferAttemptOutcome.accepted b) s =
    AtMost-mono _ (after_turn e attempt)
      (on_marked c loc job_id (mark_pending_transfer_accepted job_id e b s)) (omega arith)
      (on_marked-AtMost c loc job_id e b s)
on_attempt-AtMost c loc job_id e lease prior attempt arg
      (TransferAttemptOutcome.definite_no_debit r) s =
    taken_back-AtMost c loc job_id e lease prior attempt arg r
      (if prior then (s, true) else set_dispatch_started job_id e lease false s)
on_attempt-AtMost c loc job_id e lease prior attempt arg TransferAttemptOutcome.uncertain s =
    next_turn-AtMost loc job_id e lease arg s attempt
on_attempt-AtMost c loc job_id e lease prior attempt arg
      TransferAttemptOutcome.accepted_with_unusable_block_index s =
    unusable_block-AtMost (after_turn e attempt)
      (record_accepted_transfer_with_unusable_block_index job_id e s)

on_refund-AtMost :
    (c : Call) (loc : Locals) (job_id : ℕ) (e : PendingTransfer) (s : Store)
    → AtMost 3 (
        on_refund c loc job_id e
          (transition_refunded_beneficiary_to_raw_fallback job_id e c.fee_e8s c.now_nanos s))
unfolding transition_refunded_beneficiary_to_raw_fallback AtMost replies_left at_job
on_refund-AtMost c loc job_id e s = jobs (job_with job_id e s)
  where
    fresh :
        (job : ActivePayoutJob) (credit released : ℕ) (o : Option (ActivePayoutJob × ℕ))
        → AtMost 3 (
            on_refund c loc job_id e
              (stage_refund (raw_fallback credit (credit - c.fee_e8s) e.notification) released s o))
    fresh job credit released none = omega arith
    fresh job credit released (some (job', at)) =
        fallback_loop-AtMost c loc s (record job' { gross_outflow_e8s = released }) credit
          (credit - c.fee_e8s) at e.notification

    credits :
        (job : ActivePayoutJob) (o : Option ℕ)
        → AtMost 3 (on_refund c loc job_id e (with_credit c.fee_e8s c.now_nanos e job s o))
    credits job none = omega arith
    credits job (some credit) = elim (Bool-cases (leb credit job.gross_outflow_e8s)) [
      | inl v ↦ rw v (elim (Bool-cases (leb credit c.fee_e8s)) [
        | inl w ↦ rw w (omega arith)
        | inr w ↦ rw w (
            fresh job credit (job.gross_outflow_e8s - credit)
              (fresh_transition_created_at_time job c.now_nanos e.created_at_time_nanos))
      ])
      | inr v ↦ rw v (omega arith)
    ]

    jobs :
        (o : Option ActivePayoutJob)
        → AtMost 3 (
            on_refund c loc job_id e (
              at_job o
                (s, RefundFallbackTransition.invariant_broken)
                (λ job. refund_to_fallback c.fee_e8s c.now_nanos e e job s)))
    jobs none = omega arith
    jobs (some job) =
        elim (Bool-cases (
          not (is_awaiting e.phase)
          && notification_eq e.notification e.notification
          && is_beneficiary e.notification.kind)) [
            | inl v ↦ rw v (credits job (refund_credit_e8s c.fee_e8s e.notification))
            | inr v ↦ rw v (omega arith)
          ]

pub on_notify-AtMost :
    (c : Call) (loc : Locals) (job_id : ℕ) (e : PendingTransfer)
    (first : Option NotifyAttemptOutcome) (outcome : NotifyAttemptOutcome) (s : Store)
    → AtMost (elim first [ none ↦ 4 | some f ↦ 3 ]) (on_notify c loc job_id e first outcome s)
unfolding on_notify complete notify AtMost replies_left
on_notify-AtMost c loc job_id e first outcome s = elim (Bool-cases (is_succeeded outcome)) [
  | inl v ↦ rw v (omega arith)
  | inr v ↦
      rw v
        (elim (Bool-cases
          (is_beneficiary e.notification.kind && is_proven_refund_with_block outcome)) [
            | inl w ↦ rw w (refunds first)
            | inr w ↦ rw w (failures first)
          ])
]
  where
    refunds :
        (first : Option NotifyAttemptOutcome)
        → AtMost
            (elim first [ none ↦ 4 | some f ↦ 3 ])
            (on_refund c loc job_id e
              (transition_refunded_beneficiary_to_raw_fallback job_id e c.fee_e8s c.now_nanos s))
    refunds none =
        AtMost-mono 3 4
          (on_refund c loc job_id e
            (transition_refunded_beneficiary_to_raw_fallback job_id e c.fee_e8s c.now_nanos s))
          (omega arith) (on_refund-AtMost c loc job_id e s)
    refunds (some f) = on_refund-AtMost c loc job_id e s

    failures :
        (first : Option NotifyAttemptOutcome)
        → AtMost
            (elim first [ none ↦ 4 | some f ↦ 3 ])
            (after_failed_notify loc job_id e outcome s first)
    failures none = omega arith
    failures (some f) = omega arith
