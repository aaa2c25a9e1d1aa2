-- ===== src/Faucet/Fallback/Fresh.antt =====
-- A fresh creation time changes only the job's next time, and differs from the previous one.
use jupiter_faucet_suite.Common.{
  ◌≡◌, ℕ, ◌≢◌, refl, inl, inr, Option, none, some, ◌==◌, if◌then◌else◌, Bool-cases, checked_add,
  arith,
}
use jupiter_faucet_suite.Faucet.State.{ActivePayoutJob}
use jupiter_faucet_suite.Faucet.Fallback.{
  fresh_transition_created_at_time, checked_fresh, fresh_candidate, and_then,
}
use jupiter_faucet_suite.Faucet.Transfer.{created_at_time_is_valid_for_ledger}

module _ (Q : Option (ActivePayoutJob × ℕ) → Type 0) (now previous : ℕ) (job : ActivePayoutJob)
    (hn : Q none)
    (hs : (next at : ℕ)
      → at ≢ previous
      → Q (some (record job { next_created_at_time_nanos = next }, at))) where
  following :
      (at : ℕ)
      → at ≢ previous
      → (o : Option ℕ)
      → Q (and_then o (λ (next : ℕ). some (record job { next_created_at_time_nanos = next }, at)))
  following at d none = hn
  following at d (some next) = hs next at d

  checking : (at : ℕ) → at ≢ previous → Q (checked_fresh now job at)
  checking at d = elim (Bool-cases (created_at_time_is_valid_for_ledger at now)) [
    | inl v ↦ rw v (following at d (checked_add at 1))
    | inr v ↦ rw v hn
  ]

  bumping :
      (at : ℕ) (o : Option ℕ)
      → o ≡ checked_add at 1
      → at ≡ previous
      → Q (and_then o (checked_fresh now job))
  bumping at none e h = hn
  bumping at (some n) e h = checking n (ground arith)

  starting :
      (at : ℕ)
      → Q (and_then (if at == previous then checked_add at 1 else some at) (checked_fresh now job))
  starting at = elim (Bool-cases (at == previous)) [
    | inl v ↦ rw v (bumping at (checked_add at 1) refl (ground arith))
    | inr v ↦ rw v (checking at (ground arith))
  ]

  pub fresh_transition_cases : Q (fresh_transition_created_at_time job now previous)
  unfolding fresh_transition_created_at_time
  fresh_transition_cases = starting (fresh_candidate now job)
