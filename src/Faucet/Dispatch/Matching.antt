-- ===== src/Faucet/Dispatch/Matching.antt =====
-- What it means that the active job has the expected pending transfer.
use jupiter_faucet_suite.Common.{
  is_none, not, ℕ, ◌≡◌, refl, ap, inl, inr, true, Option, none, some, ◌==◌, ◌&&◌, Bool-cases,
  ==_iff, arith,
}
use jupiter_faucet_suite.Faucet.State.{ActivePayoutJob, PendingTransfer}
use jupiter_faucet_suite.Faucet.State.Equality.{pending_eq, pending_eq_iff}
use jupiter_faucet_suite.Faucet.Dispatch.{
  pending_of, current_pending_transfer, put_job, at_job, Store, job_with, job_if,
}

-- The job, and that it is the active one, with its number and its pending transfer.
abbrev pub Matching : ℕ → PendingTransfer → Option ActivePayoutJob → ActivePayoutJob → Type 0
Matching j e o job = (o ≡ some job) × (job.id ≡ j) × (job.pending_transfer ≡ some e)

module _ {A : Type 0} (Q : A → Type 0) (j : ℕ) (e : PendingTransfer) (default : A)
    (change : ActivePayoutJob → A) where
  at_job_if :
      (o : Option ActivePayoutJob)
      → Q default
      → ((job : ActivePayoutJob) → Matching j e o job → Q (change job))
      → Q (at_job (job_if j e o) default change)
  unfolding at_job
  at_job_if none hd hc = hd
  at_job_if (some job) hd hc =
      elim (Bool-cases (job.id == j && pending_eq job.pending_transfer (some e))) [
        | inl v ↦ rw v (
            hc job (
              refl,
              (==_iff job.id j).0 (ground arith),
              (pending_eq_iff job.pending_transfer (some e)).0 (ground arith),
            ))
        | inr v ↦ rw v hd
      ]

  -- A property of the outcome: it holds without a matching job, and with any.
  pub at_job_with :
      (s : Store)
      → Q default
      → ((job : ActivePayoutJob) → Matching j e s.st.active_payout_job job → Q (change job))
      → Q (at_job (job_with j e s) default change)
  unfolding job_with
  at_job_with s hd hc = at_job_if s.st.active_payout_job hd hc

job_if-Matching :
    (j : ℕ) (e : PendingTransfer) (job : ActivePayoutJob)
    → job.id ≡ j
    → job.pending_transfer ≡ some e
    → job_if j e (some job) ≡ some job
job_if-Matching j e job i p =
    rw ((==_iff job.id j).1 i) (rw ((pending_eq_iff job.pending_transfer (some e)).1 p) refl)

-- A job that was put back with its number and its pending transfer is found.
pub job_with-put_job :
    (j : ℕ) (e : PendingTransfer) (job : ActivePayoutJob) (s : Store)
    → job.id ≡ j
    → job.pending_transfer ≡ some e
    → job_with j e (put_job job s) ≡ some job
unfolding job_with
job_with-put_job j e job s i p = job_if-Matching j e job i p

current-if :
    (j : ℕ) (e : PendingTransfer) (o : Option ActivePayoutJob)
    → not (is_none (job_if j e o)) ≡ true
    → pending_of o ≡ some (j, e)
current-if j e none h = absurd cc
current-if j e (some job) h =
    elim (Bool-cases (job.id == j && pending_eq job.pending_transfer (some e))) [
      | inl v ↦
          rw ((pending_eq_iff job.pending_transfer (some e)).0 (ground arith))
            (ap (λ (i : ℕ). some (i, e)) ((==_iff job.id j).0 (ground arith)))
      | inr v ↦ absurd (ground (arith, v))
    ]

-- A matching job's pending transfer is the current one.
pub matching_current :
    (j : ℕ) (e : PendingTransfer) (s : Store)
    → not (is_none (job_with j e s)) ≡ true
    → current_pending_transfer s ≡ some (j, e)
unfolding job_with current_pending_transfer
matching_current j e s h = current-if j e s.st.active_payout_job h
