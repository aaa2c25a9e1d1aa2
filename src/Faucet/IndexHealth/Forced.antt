-- ===== src/Faucet/IndexHealth/Forced.antt =====
-- The counted failures, and the bad observations that are behind them.
use jupiter_faucet_suite.Common.{
  ℕ, ◌+◌, ◌≤◌, ◌<◌, ◌≡◌, refl, inl, inr, Bool, true, false, Option, none, some, unwrap_or, leb,
  arith, Bool-cases,
}
use jupiter_faucet_suite.Memo.Soundness.{injected}
use jupiter_faucet_suite.Faucet.State.{State, ForcedRescueReason}
use jupiter_faucet_suite.Faucet.IndexHealth.{Health, latched, one_more, count_anchor}
use jupiter_faucet_suite.Faucet.IndexHealth.Latest.{
  count_unreadable, count_broken, zero_success_run,
}

-- The reasons that these observations can give.
pub data Watched : Type 0 where
  anchor broken unreadable runs : Watched

abbrev pub reason_of : Watched → ForcedRescueReason
reason_of Watched.anchor = ForcedRescueReason.index_anchor_missing
reason_of Watched.broken = ForcedRescueReason.index_latest_invariant_broken
reason_of Watched.unreadable = ForcedRescueReason.index_latest_unreadable
reason_of Watched.runs = ForcedRescueReason.cmc_zero_success_runs

abbrev pub failures : Watched → State → ℕ
failures Watched.anchor st = unwrap_or st.consecutive_index_anchor_failures 0
failures Watched.broken st = unwrap_or st.consecutive_index_latest_invariant_failures 0
failures Watched.unreadable st = unwrap_or st.consecutive_index_latest_unreadable_failures 0
failures Watched.runs st = unwrap_or st.consecutive_cmc_zero_success_runs 0

-- The failures are backed by `k` bad observations, and so is the reason.
abbrev pub Backed : Watched → ℕ → State → Type 0
Backed w k st = (failures w st ≤ k) × (st.forced_rescue_reason ≡ some (reason_of w) → 2 ≤ k)

pub bound_mono : (w : Watched) (k k' : ℕ) (st : State) → k ≤ k' → Backed w k st → Backed w k' st
bound_mono w k k' st le b = (omega arith, λ e. let z = b.1 e in omega arith)

latched_bound :
    (f k : ℕ) (q r : ForcedRescueReason) (o : Option ForcedRescueReason)
    → (q ≡ r → f ≤ k)
    → (o ≡ some r → 2 ≤ k)
    → latched (leb 2 f) q o ≡ some r
    → 2 ≤ k
latched_bound f k q r (some earlier) new old e = old e
latched_bound f k q r none new old e = elim (Bool-cases (leb 2 f)) [
  | inl v ↦ let z = new (injected (let y = e in rw v at y)) in ground (arith, v, z)
  | inr v ↦ absurd (ground (arith, v, e))
]

one_more_le : (o : Option ℕ) (k : ℕ) → unwrap_or o 0 ≤ k → one_more o ≤ k + 1
one_more_le o k h = ground arith

module _ (k k' : ℕ) (le : k ≤ k') where
  old_bound :
      (r : ForcedRescueReason) (o : Option ForcedRescueReason)
      → (o ≡ some r → 2 ≤ k)
      → o ≡ some r
      → 2 ≤ k'
  old_bound r o b e = let z = b e in omega arith

  pub count_anchor-Backed :
      (w : Watched) (h : Health) (r : Option ℕ × Bool)
      → (w ≡ Watched.anchor → k < k')
      → Backed w k h.st
      → Backed w k' (count_anchor h r).st
  count_anchor-Backed w h (last, false) new b = bound_mono w k k' h.st le b
  count_anchor-Backed Watched.anchor h (last, true) new b =
      let l = one_more_le h.st.consecutive_index_anchor_failures k b.0 in
      let n = new refl in
      (
        omega arith,
        latched_bound (one_more h.st.consecutive_index_anchor_failures) k'
            ForcedRescueReason.index_anchor_missing ForcedRescueReason.index_anchor_missing
            h.st.forced_rescue_reason (λ e. omega arith)
            (old_bound ForcedRescueReason.index_anchor_missing h.st.forced_rescue_reason b.1),
      )
  count_anchor-Backed Watched.broken h (last, true) new b = (
    omega arith,
    latched_bound (one_more h.st.consecutive_index_anchor_failures) k'
        ForcedRescueReason.index_anchor_missing ForcedRescueReason.index_latest_invariant_broken
        h.st.forced_rescue_reason (λ e. absurd cc)
        (old_bound ForcedRescueReason.index_latest_invariant_broken h.st.forced_rescue_reason b.1),
  )
  count_anchor-Backed Watched.unreadable h (last, true) new b = (
    omega arith,
    latched_bound (one_more h.st.consecutive_index_anchor_failures) k'
        ForcedRescueReason.index_anchor_missing ForcedRescueReason.index_latest_unreadable
        h.st.forced_rescue_reason (λ e. absurd cc)
        (old_bound ForcedRescueReason.index_latest_unreadable h.st.forced_rescue_reason b.1),
  )
  count_anchor-Backed Watched.runs h (last, true) new b = (
    omega arith,
    latched_bound (one_more h.st.consecutive_index_anchor_failures) k'
        ForcedRescueReason.index_anchor_missing ForcedRescueReason.cmc_zero_success_runs
        h.st.forced_rescue_reason (λ e. absurd cc)
        (old_bound ForcedRescueReason.cmc_zero_success_runs h.st.forced_rescue_reason b.1),
  )

  pub count_broken-Backed :
      (w : Watched) (h : Health) (r : Option ℕ × Bool)
      → (w ≡ Watched.broken → k < k')
      → Backed w k h.st
      → Backed w k' (count_broken h r).st
  count_broken-Backed w h (last, false) new b = bound_mono w k k' h.st le b
  count_broken-Backed Watched.anchor h (last, true) new b = (
    omega arith,
    latched_bound (one_more h.st.consecutive_index_latest_invariant_failures) k'
        ForcedRescueReason.index_latest_invariant_broken ForcedRescueReason.index_anchor_missing
        h.st.forced_rescue_reason (λ e. absurd cc)
        (old_bound ForcedRescueReason.index_anchor_missing h.st.forced_rescue_reason b.1),
  )
  count_broken-Backed Watched.broken h (last, true) new b =
      let l = one_more_le h.st.consecutive_index_latest_invariant_failures k b.0 in
      let n = new refl in
      (
        omega arith,
        latched_bound (one_more h.st.consecutive_index_latest_invariant_failures) k'
            ForcedRescueReason.index_latest_invariant_broken
            ForcedRescueReason.index_latest_invariant_broken h.st.forced_rescue_reason
            (λ e. omega arith)
            (old_bound ForcedRescueReason.index_latest_invariant_broken h.st.forced_rescue_reason
              b.1),
      )
  count_broken-Backed Watched.unreadable h (last, true) new b = (
    omega arith,
    latched_bound (one_more h.st.consecutive_index_latest_invariant_failures) k'
        ForcedRescueReason.index_latest_invariant_broken ForcedRescueReason.index_latest_unreadable
        h.st.forced_rescue_reason (λ e. absurd cc)
        (old_bound ForcedRescueReason.index_latest_unreadable h.st.forced_rescue_reason b.1),
  )
  count_broken-Backed Watched.runs h (last, true) new b = (
    omega arith,
    latched_bound (one_more h.st.consecutive_index_latest_invariant_failures) k'
        ForcedRescueReason.index_latest_invariant_broken ForcedRescueReason.cmc_zero_success_runs
        h.st.forced_rescue_reason (λ e. absurd cc)
        (old_bound ForcedRescueReason.cmc_zero_success_runs h.st.forced_rescue_reason b.1),
  )

  pub count_unreadable-Backed :
      (w : Watched) (h : Health) (r : Option ℕ × Bool)
      → (w ≡ Watched.unreadable → k < k')
      → Backed w k h.st
      → Backed w k' (count_unreadable h r).st
  count_unreadable-Backed w h (last, false) new b = bound_mono w k k' h.st le b
  count_unreadable-Backed Watched.anchor h (last, true) new b = (
    omega arith,
    latched_bound (one_more h.st.consecutive_index_latest_unreadable_failures) k'
        ForcedRescueReason.index_latest_unreadable ForcedRescueReason.index_anchor_missing
        h.st.forced_rescue_reason (λ e. absurd cc)
        (old_bound ForcedRescueReason.index_anchor_missing h.st.forced_rescue_reason b.1),
  )
  count_unreadable-Backed Watched.broken h (last, true) new b = (
    omega arith,
    latched_bound (one_more h.st.consecutive_index_latest_unreadable_failures) k'
        ForcedRescueReason.index_latest_unreadable ForcedRescueReason.index_latest_invariant_broken
        h.st.forced_rescue_reason (λ e. absurd cc)
        (old_bound ForcedRescueReason.index_latest_invariant_broken h.st.forced_rescue_reason b.1),
  )
  count_unreadable-Backed Watched.unreadable h (last, true) new b =
      let l = one_more_le h.st.consecutive_index_latest_unreadable_failures k b.0 in
      let n = new refl in
      (
        omega arith,
        latched_bound (one_more h.st.consecutive_index_latest_unreadable_failures) k'
            ForcedRescueReason.index_latest_unreadable ForcedRescueReason.index_latest_unreadable
            h.st.forced_rescue_reason (λ e. omega arith)
            (old_bound ForcedRescueReason.index_latest_unreadable h.st.forced_rescue_reason b.1),
      )
  count_unreadable-Backed Watched.runs h (last, true) new b = (
    omega arith,
    latched_bound (one_more h.st.consecutive_index_latest_unreadable_failures) k'
        ForcedRescueReason.index_latest_unreadable ForcedRescueReason.cmc_zero_success_runs
        h.st.forced_rescue_reason (λ e. absurd cc)
        (old_bound ForcedRescueReason.cmc_zero_success_runs h.st.forced_rescue_reason b.1),
  )

  pub zero_success_run-Backed :
      (w : Watched) (st : State)
      → (w ≡ Watched.runs → k < k')
      → Backed w k st
      → Backed w k' (zero_success_run st)
  zero_success_run-Backed Watched.anchor st new b = (
    omega arith,
    latched_bound (one_more st.consecutive_cmc_zero_success_runs) k'
        ForcedRescueReason.cmc_zero_success_runs ForcedRescueReason.index_anchor_missing
        st.forced_rescue_reason (λ e. absurd cc)
        (old_bound ForcedRescueReason.index_anchor_missing st.forced_rescue_reason b.1),
  )
  zero_success_run-Backed Watched.broken st new b = (
    omega arith,
    latched_bound (one_more st.consecutive_cmc_zero_success_runs) k'
        ForcedRescueReason.cmc_zero_success_runs ForcedRescueReason.index_latest_invariant_broken
        st.forced_rescue_reason (λ e. absurd cc)
        (old_bound ForcedRescueReason.index_latest_invariant_broken st.forced_rescue_reason b.1),
  )
  zero_success_run-Backed Watched.unreadable st new b = (
    omega arith,
    latched_bound (one_more st.consecutive_cmc_zero_success_runs) k'
        ForcedRescueReason.cmc_zero_success_runs ForcedRescueReason.index_latest_unreadable
        st.forced_rescue_reason (λ e. absurd cc)
        (old_bound ForcedRescueReason.index_latest_unreadable st.forced_rescue_reason b.1),
  )
  zero_success_run-Backed Watched.runs st new b =
      let l = one_more_le st.consecutive_cmc_zero_success_runs k b.0 in
      let n = new refl in
      (
        omega arith,
        latched_bound (one_more st.consecutive_cmc_zero_success_runs) k'
            ForcedRescueReason.cmc_zero_success_runs ForcedRescueReason.cmc_zero_success_runs
            st.forced_rescue_reason (λ e. omega arith)
            (old_bound ForcedRescueReason.cmc_zero_success_runs st.forced_rescue_reason b.1),
      )
