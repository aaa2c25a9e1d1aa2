-- ===== src/Faucet/Dispatch.antt =====
-- The record of a dispatched transfer (canisters/faucet/src/state/transfer_dispatch.rs), which lives
-- in a stable memory of its own beside the faucet's state. The two memories together are the store.
pub mod Matching
use jupiter_faucet_suite.Common.{
  ℕ, Bool, true, false, Option, none, some, ◌==◌, ◌&&◌, if◌then◌else◌,
}
use jupiter_faucet_suite.Faucet.State.{State, ActivePayoutJob, PendingTransfer}
use jupiter_faucet_suite.Faucet.State.Equality.{pending_eq}

pub record DispatchRecord : Type 0 where
  pub job_id : ℕ
  pub pending : PendingTransfer
  pub dispatched : Bool

pub record Store : Type 0 where
  pub st : State
  pub dispatch : Option DispatchRecord

abbrev pub recorded : ℕ → PendingTransfer → Option DispatchRecord → Bool
recorded job_id pending none = true
recorded job_id pending (some r) =
    if r.job_id == job_id && pending_eq (some r.pending) (some pending) then r.dispatched else true

-- A missing record or one of another transfer counts as dispatched.
unfoldable pub pending_transfer_may_have_dispatched : ℕ → PendingTransfer → Store → Bool
pending_transfer_may_have_dispatched job_id pending s = recorded job_id pending s.dispatch

unfoldable pub set_pending_transfer_dispatch : ℕ → PendingTransfer → Bool → Store → Store
set_pending_transfer_dispatch job_id pending dispatched s = record s {
  dispatch = some (record { job_id = job_id; pending = pending; dispatched = dispatched });
}

unfoldable pub clear_pending_transfer_dispatch : Store → Store
clear_pending_transfer_dispatch s = record s { dispatch = none }

-- `st.active_payout_job = Some(job)`, what a change through `as_mut` leaves.
abbrev pub put_job : ActivePayoutJob → Store → Store
put_job job s = record s { st = record s.st { active_payout_job = some job } }

abbrev pub job_if : ℕ → PendingTransfer → Option ActivePayoutJob → Option ActivePayoutJob
job_if job_id expected none = none
job_if job_id expected (some job) =
    if job.id == job_id && pending_eq job.pending_transfer (some expected) then some job else none

-- The active job, when it is `job_id` and its pending transfer is the expected one.
unfoldable pub job_with : ℕ → PendingTransfer → Store → Option ActivePayoutJob
job_with job_id expected s = job_if job_id expected s.st.active_payout_job

abbrev pub pending_of : Option ActivePayoutJob → Option (ℕ × PendingTransfer)
pending_of none = none
pending_of (some job) = elim job.pending_transfer [
  | none ↦ none
  | some pending ↦ some (job.id, pending)
]

unfoldable pub current_pending_transfer : Store → Option (ℕ × PendingTransfer)
current_pending_transfer s = pending_of s.st.active_payout_job

-- What is done with the job, or the default without one.
unfoldable pub at_job {ℓ} : {A : Type ℓ} → Option ActivePayoutJob → A → (ActivePayoutJob → A) → A
at_job none default change = default
at_job (some job) default change = change job
