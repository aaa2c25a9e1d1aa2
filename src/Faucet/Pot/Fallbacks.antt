-- ===== src/Faucet/Pot/Fallbacks.antt =====
-- The pot under the changes of cmc_notify_transfer.rs: fallbacks and reservations.
use jupiter_faucet_suite.Common.{
  u64_max, not, ◌&&◌, leb, ℕ, ◌+◌, ◌-◌, ◌≤◌, ◌≡◌, inl, inr, Bool, true, false, Option, none, some,
  if◌then◌else◌, arith, Bool-cases,
}
use jupiter_faucet_suite.Faucet.Pot.Changes.{latched-WithinPot, clear-WithinPot}
use jupiter_faucet_suite.Faucet.Fallback.Fresh.{fresh_transition_cases}
use jupiter_faucet_suite.Faucet.Transfer.{
  count_terminal, PendingTransferTerminalStatus, clear_pending_transfer,
}
use jupiter_faucet_suite.Faucet.Fallback.{
  AmbiguousPendingGrossReservation, reserve, clear_reserved, record_unusable, reserved_outflow,
  reserve_ambiguous_awaiting_transfer_gross, reserve_then_clear_ambiguous_awaiting_transfer,
  record_accepted_transfer_with_unusable_block_index, RefundFallbackTransition, refund_credit_e8s,
  same_size_fallback, notification_eq, stage_fresh, refund_to_fallback, is_beneficiary,
  raw_fallback, stage_refund, with_credit, transition_refunded_beneficiary_to_raw_fallback,
  stage_raw_fallback_after_definite_rejection, fresh_transition_created_at_time, is_awaiting,
}
use jupiter_faucet_suite.Faucet.State.{is_beneficiary_payout, ActivePayoutJob, PendingTransfer}
use jupiter_faucet_suite.Faucet.Dispatch.{
  at_job, set_pending_transfer_dispatch, clear_pending_transfer_dispatch, Store, put_job,
}
use jupiter_faucet_suite.Faucet.Dispatch.Matching.{job_with-put_job, at_job_with, Matching}
use jupiter_faucet_suite.Faucet.Pot.{WithinPot, reserved_e8s, Matching-WithinPot, active-WithinPot}

pub rejected-WithinPot :
    (j : ℕ) (e : PendingTransfer) (now : ℕ) (s : Store)
    → WithinPot s
    → WithinPot (stage_raw_fallback_after_definite_rejection j e now s).0
unfolding stage_raw_fallback_after_definite_rejection set_pending_transfer_dispatch WithinPot
rejected-WithinPot j e now s h =
    at_job_with (λ (r : Store × Option Bool). WithinPot r.0) j e (s, some false) _ s h jobs
  where
    jobs :
        (job : ActivePayoutJob)
        → Matching j e s.st.active_payout_job job
        → WithinPot
            (if is_awaiting e.phase && is_beneficiary e.notification.kind
              then stage_fresh
                  (same_size_fallback e.notification)
                  s
                  (fresh_transition_created_at_time job now e.created_at_time_nanos)
              else (s, some false)).0
    jobs job m =
        let w : job.gross_outflow_e8s + reserved_e8s (some e) ≤ job.pot_start_e8s =
          Matching-WithinPot j e s job m h in
        elim (Bool-cases (is_awaiting e.phase && is_beneficiary e.notification.kind)) [
          | inl v ↦ rw v (
              fresh_transition_cases
                (λ o. WithinPot (stage_fresh (same_size_fallback e.notification) s o).0) now
                e.created_at_time_nanos job h (λ next. λ at. λ d. ground arith))
          | inr v ↦ rw v h
        ]

pub refunded-WithinPot :
    (j : ℕ) (e : PendingTransfer) (fee now : ℕ) (s : Store)
    → WithinPot s
    → WithinPot (transition_refunded_beneficiary_to_raw_fallback j e fee now s).0
unfolding transition_refunded_beneficiary_to_raw_fallback set_pending_transfer_dispatch WithinPot
refunded-WithinPot j e fee now s h =
    at_job_with (λ (r : Store × RefundFallbackTransition). WithinPot r.0) j e
      (s, RefundFallbackTransition.invariant_broken) _ s h jobs
  where
    credits :
        (job : ActivePayoutJob) (o : Option ℕ)
        → job.gross_outflow_e8s + reserved_e8s job.pending_transfer ≤ job.pot_start_e8s
        → WithinPot (with_credit fee now e job s o).0
    credits job none w = h
    credits job (some credit) w = elim (Bool-cases (leb credit job.gross_outflow_e8s)) [
      | inl v ↦ rw v (elim (Bool-cases (leb credit fee)) [
        | inl u ↦ rw u (omega arith)
        | inr u ↦ rw u (
            fresh_transition_cases
              (λ o.
                WithinPot
                  (stage_refund (raw_fallback credit (credit - fee) e.notification)
                    (job.gross_outflow_e8s - credit) s o).0)
              now e.created_at_time_nanos job h (λ next. λ at. λ d. ground arith))
      ])
      | inr v ↦ rw v h
    ]

    jobs :
        (job : ActivePayoutJob)
        → Matching j e s.st.active_payout_job job
        → WithinPot (refund_to_fallback fee now e e job s).0
    jobs job m =
        elim (Bool-cases (
          not (is_awaiting e.phase)
          && notification_eq e.notification e.notification
          && is_beneficiary e.notification.kind)) [
            | inl v ↦
                rw v (
                  credits job (refund_credit_e8s fee e.notification) (active-WithinPot s job m.0 h))
            | inr v ↦ rw v h
          ]

pub unusable-WithinPot :
    (j : ℕ) (e : PendingTransfer) (s : Store)
    → WithinPot s
    → WithinPot (record_accepted_transfer_with_unusable_block_index j e s).0
unfolding record_accepted_transfer_with_unusable_block_index reserved_outflow WithinPot
    clear_pending_transfer_dispatch
unusable-WithinPot j e s h =
    at_job_with (λ (r : Store × Bool). WithinPot r.0) j e (s, false) _ s h
      (λ job. λ m. totals job (is_beneficiary_payout e.notification.kind))
  where
    counted :
        (job : ActivePayoutJob) (total : ℕ) (k : Bool)
        → total ≤ job.pot_start_e8s
        → (count_terminal k PendingTransferTerminalStatus.ambiguous
              (record job { gross_outflow_e8s = total })).gross_outflow_e8s
            + 0
          ≤ (count_terminal k PendingTransferTerminalStatus.ambiguous
              (record job { gross_outflow_e8s = total })).pot_start_e8s
    counted job total false b = omega arith
    counted job total true b = omega arith

    totals :
        (job : ActivePayoutJob) (k : Bool)
        → WithinPot (record_unusable e job s (reserved_outflow e job)).0
    totals job k =
        elim (Bool-cases (leb (job.gross_outflow_e8s + e.notification.gross_share_e8s) u64_max)) [
          | inl v ↦
              rw v
                (elim (Bool-cases (
                  leb (job.gross_outflow_e8s + e.notification.gross_share_e8s) job.pot_start_e8s)) [
                    | inl u ↦
                        rw u
                          (counted job _ (is_beneficiary_payout e.notification.kind) (ground arith))
                    | inr u ↦ rw u h
                  ])
          | inr v ↦ rw v h
        ]

-- Clearing after the reservation: the outflow then holds the pending share.
clear_put_job-WithinPot :
    (j : ℕ) (e : PendingTransfer) (t : PendingTransferTerminalStatus) (job : ActivePayoutJob)
    (s : Store)
    → job.id ≡ j
    → job.pending_transfer ≡ some e
    → job.gross_outflow_e8s ≤ job.pot_start_e8s
    → WithinPot (clear_pending_transfer j e t (put_job job s))
unfolding clear_pending_transfer clear_pending_transfer_dispatch WithinPot at_job
clear_put_job-WithinPot j e t job s i p h =
    rw (job_with-put_job j e job s i p) (counted (is_beneficiary_payout e.notification.kind) t)
  where
    counted :
        (k : Bool) (t : PendingTransferTerminalStatus)
        → (count_terminal k t job).gross_outflow_e8s + 0 ≤ (count_terminal k t job).pot_start_e8s
    counted false t = omega arith
    counted true PendingTransferTerminalStatus.failed = omega arith
    counted true PendingTransferTerminalStatus.ambiguous = omega arith

pub reserved-WithinPot :
    (j : ℕ) (e : PendingTransfer) (s : Store)
    → WithinPot s
    → WithinPot (reserve_then_clear_ambiguous_awaiting_transfer j e s).0
unfolding reserve_then_clear_ambiguous_awaiting_transfer reserve_ambiguous_awaiting_transfer_gross
    reserved_outflow
reserved-WithinPot j e s h =
    at_job_with
      (λ (r : Store × AmbiguousPendingGrossReservation). WithinPot (clear_reserved j e r).0) j e
      (s, AmbiguousPendingGrossReservation.not_applicable) _ s (clear-WithinPot j e _ s h) jobs
  where
    jobs :
        (job : ActivePayoutJob)
        → Matching j e s.st.active_payout_job job
        → WithinPot
            (clear_reserved j e (
              if is_awaiting e.phase
              then reserve job s (reserved_outflow e job)
              else (s, AmbiguousPendingGrossReservation.not_applicable))).0
    jobs job m = elim (Bool-cases (is_awaiting e.phase)) [
      | inr v ↦ rw v (clear-WithinPot j e PendingTransferTerminalStatus.ambiguous s h)
      | inl v ↦
          rw v
            (elim (Bool-cases
              (leb (job.gross_outflow_e8s + e.notification.gross_share_e8s) u64_max)) [
                | inr u ↦ rw u (latched-WithinPot _ s h)
                | inl u ↦
                    rw u
                      (elim (Bool-cases (
                        leb (job.gross_outflow_e8s + e.notification.gross_share_e8s)
                          job.pot_start_e8s)) [
                            | inr t ↦ rw t (latched-WithinPot _ s h)
                            | inl t ↦ rw t (
                                clear_put_job-WithinPot j e _
                                  (record job {
                                    gross_outflow_e8s =
                                        job.gross_outflow_e8s + e.notification.gross_share_e8s;
                                  })
                                  s m.1 m.2 (ground arith))
                          ])
              ])
    ]
