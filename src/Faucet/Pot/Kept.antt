-- ===== src/Faucet/Pot/Kept.antt =====
-- The share of a transfer in the books, over a reply that does not rule out its debit.
use jupiter_faucet_suite.Common.{
  u64_max, ℕ, ◌+◌, ◌≤◌, ◌≡◌, refl, inl, inr, Bool, true, false, Option, none, some, leb, subst,
  arith, Bool-cases,
}
use jupiter_faucet_suite.Faucet.Accounting.{
  apply_notified_transfer, record_ledger_accepted_transfer,
}
use jupiter_faucet_suite.Faucet.Transfer.{
  note_attempted_beneficiary, increment_cmc_attempts, with_success, record_completed_transfer,
  count_terminal, PendingTransferTerminalStatus, clear_pending_transfer, accepted_at, with_accepted,
}
use jupiter_faucet_suite.Faucet.Fallback.{
  latch, is_awaiting, reserved_outflow, reserve_ambiguous_awaiting_transfer_gross,
  reserve_then_clear_ambiguous_awaiting_transfer,
  record_accepted_transfer_with_unusable_block_index,
}
use jupiter_faucet_suite.Faucet.State.{
  requires_cmc_notify, is_beneficiary_payout, ActivePayoutJob, PendingTransfer, TransferKind,
  ForcedRescueReason, latch_forced_rescue_reason,
}
use jupiter_faucet_suite.Faucet.Dispatch.{
  job_with, at_job, clear_pending_transfer_dispatch, Store, put_job,
}
use jupiter_faucet_suite.Faucet.Dispatch.Matching.{job_with-put_job, at_job_with, Matching}
use jupiter_faucet_suite.Faucet.Pot.{committed_e8s, pot_e8s, reserved_e8s}

-- At least `n` is recorded or reserved, and no more than the pot `p`.
abbrev pub CoversJob : ℕ → ℕ → Option ActivePayoutJob → Type 0
CoversJob n p o = (n ≤ committed_e8s o) × (committed_e8s o ≤ p) × (pot_e8s o ≡ p)

module _ (n p : ℕ) (word : p ≤ u64_max) where
  unfoldable pub Covers : Store → Type 0
  Covers s = CoversJob n p s.st.active_payout_job

  Matching-Covers :
      (j : ℕ) (e : PendingTransfer) (s : Store) (job : ActivePayoutJob)
      → Matching j e s.st.active_payout_job job
      → Covers s
      → (n ≤ job.gross_outflow_e8s + reserved_e8s (some e))
        × (job.gross_outflow_e8s + reserved_e8s (some e) ≤ p)
        × (job.pot_start_e8s ≡ p)
  unfolding Covers
  Matching-Covers j e s job (o, i, m) h =
      subst
        (λ q.
          (n ≤ job.gross_outflow_e8s + reserved_e8s q)
          × (job.gross_outflow_e8s + reserved_e8s q ≤ p)
          × (job.pot_start_e8s ≡ p))
        m (subst (CoversJob n p) o h)

  active-Covers :
      (s : Store) (job : ActivePayoutJob)
      → s.st.active_payout_job ≡ some job
      → Covers s
      → CoversJob n p (some job)
  unfolding Covers
  active-Covers s job o h = subst (CoversJob n p) o h

  pub matched-Covers :
      (j : ℕ) (e : PendingTransfer) (b : ℕ) (s : Store) (job : ActivePayoutJob)
      → is_awaiting e.phase ≡ true
      → Matching j e s.st.active_payout_job job
      → Covers s
      → Covers (put_job (with_accepted (accepted_at b e) job) s)
  unfolding record_ledger_accepted_transfer Covers
  matched-Covers j e b s job v m h =
      let w = Matching-Covers j e s job m h in
      let share : reserved_e8s (some e) ≡ e.notification.gross_share_e8s = rw v refl in
      (omega (arith, w.0, w.1, share, word), omega (arith, w.1, share, word), w.2)

  pub latched-Covers : (r : ForcedRescueReason) (s : Store) → Covers s → Covers (latch r s)
  unfolding latch latch_forced_rescue_reason Covers
  latched-Covers r s h = reasons s.st.forced_rescue_reason
    where
      reasons :
          (o : Option ForcedRescueReason)
          → Covers (record s {
            st = elim o [
              | none ↦ record s.st { forced_rescue_reason = some r }
              | some earlier ↦ s.st
            ];
          })
      reasons none = h
      reasons (some earlier) = h

  pub completed-Covers :
      (j : ℕ) (e : PendingTransfer) (now : ℕ) (s : Store)
      → is_awaiting e.phase ≡ false
      → Covers s
      → Covers (record_completed_transfer j e now s)
  unfolding record_completed_transfer clear_pending_transfer_dispatch apply_notified_transfer Covers
  completed-Covers j e now s v h = at_job_with Covers j e s _ s h (λ job. λ m.
      (let w = Matching-Covers j e s job m h in
        let share : reserved_e8s (some e) ≡ 0 = rw v refl in
        counted job (requires_cmc_notify e.notification.kind) e.notification.kind
          (omega (arith, w.0, share)) (omega (arith, w.1, share)) w.2))
    where
      counted :
          (job : ActivePayoutJob) (b : Bool) (kind : TransferKind)
          → n ≤ job.gross_outflow_e8s
          → job.gross_outflow_e8s ≤ p
          → job.pot_start_e8s ≡ p
          → (n
              ≤ (apply_notified_transfer e.notification (with_success b job)).gross_outflow_e8s + 0)
            × ((apply_notified_transfer e.notification (with_success b job)).gross_outflow_e8s + 0
                ≤ p)
            × ((apply_notified_transfer e.notification (with_success b job)).pot_start_e8s ≡ p)
      counted job b kind low high pot = grind arith

  pub noted-Covers :
      (j : ℕ) (e : PendingTransfer) (s : Store)
      → Covers s
      → Covers (note_attempted_beneficiary j e s)
  unfolding note_attempted_beneficiary Covers
  noted-Covers j e s h = elim (Bool-cases (requires_cmc_notify e.notification.kind)) [
    | inl v ↦ rw v (at_job_with Covers j e s _ s h (λ job. λ m. active-Covers s job m.0 h))
    | inr v ↦ rw v h
  ]

  pub incremented-Covers :
      (j : ℕ) (e : PendingTransfer) (s : Store) → Covers s → Covers (increment_cmc_attempts j e s)
  unfolding increment_cmc_attempts Covers
  incremented-Covers j e s h = elim (Bool-cases (requires_cmc_notify e.notification.kind)) [
    | inl v ↦ rw v (at_job_with Covers j e s _ s h (λ job. λ m. active-Covers s job m.0 h))
    | inr v ↦ rw v h
  ]

  -- The outflow with the pending share added still fits the pot.
  reserved_lem :
      (j : ℕ) (e : PendingTransfer) (s : Store) (job : ActivePayoutJob)
      → is_awaiting e.phase ≡ true
      → Matching j e s.st.active_payout_job job
      → Covers s
      → (reserved_outflow e job ≡ some (job.gross_outflow_e8s + e.notification.gross_share_e8s))
        × (n ≤ job.gross_outflow_e8s + e.notification.gross_share_e8s)
        × (job.gross_outflow_e8s + e.notification.gross_share_e8s ≤ p)
        × (job.pot_start_e8s ≡ p)
  unfolding reserved_outflow
  reserved_lem j e s job v m h =
      let w = Matching-Covers j e s job m h in
      let share : reserved_e8s (some e) ≡ e.notification.gross_share_e8s = rw v refl in
      let fits : leb (job.gross_outflow_e8s + e.notification.gross_share_e8s) u64_max ≡ true =
        ground (arith, w, share, word) in
      let within : leb (job.gross_outflow_e8s + e.notification.gross_share_e8s) job.pot_start_e8s
          ≡ true =
        ground (arith, w, share, word) in
      (rw (fits, within) refl, omega (arith, w.0, share), omega (arith, w.1, share), w.2)

  -- A job that is counted and loses its pending transfer.
  counted-Covers :
      (job : ActivePayoutJob) (k : Bool) (t : PendingTransferTerminalStatus)
      → n ≤ job.gross_outflow_e8s
      → job.gross_outflow_e8s ≤ p
      → job.pot_start_e8s ≡ p
      → (n ≤ (count_terminal k t job).gross_outflow_e8s + 0)
        × ((count_terminal k t job).gross_outflow_e8s + 0 ≤ p)
        × ((count_terminal k t job).pot_start_e8s ≡ p)
  counted-Covers job false t low high pot = (omega arith, omega arith, pot)
  counted-Covers job true PendingTransferTerminalStatus.failed low high pot =
      (omega arith, omega arith, pot)
  counted-Covers job true PendingTransferTerminalStatus.ambiguous low high pot =
      (omega arith, omega arith, pot)

  pub unusable-Covers :
      (j : ℕ) (e : PendingTransfer) (s : Store)
      → is_awaiting e.phase ≡ true
      → Covers s
      → Covers (record_accepted_transfer_with_unusable_block_index j e s).0
  unfolding record_accepted_transfer_with_unusable_block_index clear_pending_transfer_dispatch
      Covers
  unusable-Covers j e s v h =
      at_job_with (λ (r : Store × Bool). Covers r.0) j e (s, false) _ s h
        (λ job. λ m.
          (let w = reserved_lem j e s job v m h in
            rw w.0 (
              counted-Covers
                (record job {
                  gross_outflow_e8s = job.gross_outflow_e8s + e.notification.gross_share_e8s;
                })
                (is_beneficiary_payout e.notification.kind) PendingTransferTerminalStatus.ambiguous
                w.1 w.2 w.3)))

  clear_put_job-Covers :
      (j : ℕ) (e : PendingTransfer) (t : PendingTransferTerminalStatus) (job : ActivePayoutJob)
      (s : Store)
      → job.id ≡ j
      → job.pending_transfer ≡ some e
      → n ≤ job.gross_outflow_e8s
      → job.gross_outflow_e8s ≤ p
      → job.pot_start_e8s ≡ p
      → Covers (clear_pending_transfer j e t (put_job job s))
  unfolding clear_pending_transfer clear_pending_transfer_dispatch Covers at_job
  clear_put_job-Covers j e t job s i m low high pot =
      rw (job_with-put_job j e job s i m)
        (counted-Covers job (is_beneficiary_payout e.notification.kind) t low high pot)

  -- The job that is found is the matching one.
  abbrev Found : ℕ → PendingTransfer → Store → Option ActivePayoutJob → Type 0
  Found j e s none = Unit
  Found j e s (some job) = Matching j e s.st.active_payout_job job

  job_with-Found :
      (j : ℕ) (e : PendingTransfer) (s : Store) → Found j e s (at_job (job_with j e s) none some)
  job_with-Found j e s = at_job_with (Found j e s) j e none some s tt (λ job. λ m. m)

  pub reserved-Covers :
      (j : ℕ) (e : PendingTransfer) (s : Store)
      → is_awaiting e.phase ≡ true
      → Covers s
      → Covers (reserve_then_clear_ambiguous_awaiting_transfer j e s).0
  unfolding reserve_then_clear_ambiguous_awaiting_transfer reserve_ambiguous_awaiting_transfer_gross
      at_job clear_pending_transfer
  reserved-Covers j e s v h = found (job_with j e s) refl
    where
      found :
          (o : Option ActivePayoutJob)
          → job_with j e s ≡ o
          → Covers (reserve_then_clear_ambiguous_awaiting_transfer j e s).0
      found none q = rw q (rw q h)
      found (some job) q =
          let m : Matching j e s.st.active_payout_job job =
            subst (λ o. Found j e s (at_job o none some)) q (job_with-Found j e s) in
          let w = reserved_lem j e s job v m h in
          rw (q, v, w.0)
            (clear_put_job-Covers j e PendingTransferTerminalStatus.ambiguous
              (record job {
                gross_outflow_e8s = job.gross_outflow_e8s + e.notification.gross_share_e8s;
              })
              s m.1 m.2 w.1 w.2 w.3)
