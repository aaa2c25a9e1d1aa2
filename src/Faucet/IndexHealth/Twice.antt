-- ===== src/Faucet/IndexHealth/Twice.antt =====
-- Sequences of observations, against the failures that they count.
use jupiter_faucet_suite.Common.{
  ℕ, ◌+◌, ◌≤◌, ◌<◌, ◌≡◌, inl, inr, Bool, true, Option, none, some, List, [], ◌∷◌, ◌==◌, ◌&&◌,
  unwrap_or, option_eq, ltb, arith, Bool-cases,
}
use jupiter_faucet_suite.Faucet.IndexHealth.Observations.{
  bad_observations, once, observe_all, observe, is_missing, is_bad, Observation,
}
use jupiter_faucet_suite.Faucet.State.{State, ActivePayoutJob}
use jupiter_faucet_suite.Faucet.IndexHealth.{
  Health, LatestScan, count_sustained_failure, apply_anchor_observation, gap_seconds, anchored,
  observe_anchor,
}
use jupiter_faucet_suite.Faucet.IndexHealth.Latest.{
  apply_latest_observation, record_latest_unreadable_failure, record_latest_invariant_failure,
  count_latest_failure, observed_latest, contradicts, is_lagging, apply_cmc_run_result,
  apply_job_health_observations,
}
use jupiter_faucet_suite.Faucet.IndexHealth.Forced.{
  Watched, Backed, reason_of, failures, bound_mono, count_anchor-Backed, count_broken-Backed,
  count_unreadable-Backed, zero_success_run-Backed,
}

anchored-Backed : (w : Watched) (k : ℕ) (h : Health) → Backed w k h.st → Backed w k (anchored h).st
anchored-Backed Watched.anchor k h b = (omega arith, b.1)
anchored-Backed Watched.broken k h b = b
anchored-Backed Watched.unreadable k h b = b
anchored-Backed Watched.runs k h b = b

observed_latest-Backed :
    (w : Watched) (k balance : ℕ) (tip : Option ℕ) (h : Health)
    → Backed w k h.st
    → Backed w k (observed_latest balance tip h).st
observed_latest-Backed Watched.anchor k balance tip h b = b
observed_latest-Backed Watched.broken k balance tip h b = (omega arith, b.1)
observed_latest-Backed Watched.unreadable k balance tip h b = (omega arith, b.1)
observed_latest-Backed Watched.runs k balance tip h b = b

success-Backed :
    (w : Watched) (k : ℕ) (st : State)
    → Backed w k st
    → Backed w k (record st { consecutive_cmc_zero_success_runs = some 0 })
success-Backed Watched.anchor k st b = b
success-Backed Watched.broken k st b = b
success-Backed Watched.unreadable k st b = b
success-Backed Watched.runs k st b = (omega arith, b.1)

module _ (w : Watched) (k k' : ℕ) (le : k ≤ k') where
  observe_anchor-Backed :
      (observed : Option ℕ) (now : ℕ) (h : Health) (o : Option ℕ)
      → (w ≡ Watched.anchor → is_missing o observed ≡ true → k < k')
      → Backed w k h.st
      → Backed w k' (observe_anchor observed now h o).st
  observe_anchor-Backed observed now h none new b = bound_mono w k k' h.st le b
  observe_anchor-Backed observed now h (some expected) new b =
      elim (Bool-cases (option_eq observed (some expected))) [
        | inl v ↦ rw v (anchored-Backed w k' h (bound_mono w k k' h.st le b))
        | inr v ↦ rw v (
            count_anchor-Backed k k' le w h
              (count_sustained_failure h.last_anchor_failure
                (unwrap_or h.st.consecutive_index_anchor_failures 0) now (gap_seconds h.st))
              (λ e. new e (rw v)) b)
      ]

  apply_anchor_observation-Backed :
      (observed : Option ℕ) (now : ℕ) (h : Health)
      → (w ≡ Watched.anchor
          → is_missing h.st.config.expected_first_staking_tx_id observed ≡ true
          → k < k')
      → Backed w k h.st
      → Backed w k' (apply_anchor_observation observed now h).st
  unfolding apply_anchor_observation
  apply_anchor_observation-Backed observed now h new b =
      observe_anchor-Backed observed now h h.st.config.expected_first_staking_tx_id new b

  apply_cmc_run_result-Backed :
      (attempts successes : ℕ) (counts : Bool) (st : State)
      → (w ≡ Watched.runs → (counts && ltb 0 attempts && (successes == 0)) ≡ true → k < k')
      → Backed w k st
      → Backed w k' (apply_cmc_run_result attempts successes counts st)
  unfolding apply_cmc_run_result
  apply_cmc_run_result-Backed attempts successes counts st new b =
      elim (Bool-cases (attempts == 0)) [
        | inl v ↦ rw v (bound_mono w k k' st le b)
        | inr v ↦ elim (Bool-cases (ltb 0 successes)) [
          | inl s ↦ rw (v, s) (success-Backed w k' st (bound_mono w k k' st le b))
          | inr s ↦ elim (Bool-cases counts) [
            | inl c ↦
                rw (v, s, c)
                  (zero_success_run-Backed k k' le w st (λ e. new e (ground (arith, v, s, c))) b)
            | inr c ↦ rw (v, s, c) (bound_mono w k k' st le b)
          ]
        ]
      ]

  latest-Backed :
      (scan : LatestScan) (now : ℕ) (h : Health)
      → (is_bad w (Observation.latest scan now) h.st ≡ true → k < k')
      → Backed w k h.st
      → Backed w k' (apply_latest_observation scan now h).st
  unfolding apply_latest_observation record_latest_unreadable_failure
      record_latest_invariant_failure
  latest-Backed LatestScan.unreadable now h new b =
      count_unreadable-Backed k k' le w h (count_latest_failure now h) (λ e. new (rw e)) b
  latest-Backed LatestScan.invariant_broken now h new b =
      count_broken-Backed k k' le w h (count_latest_failure now h) (λ e. new (rw e)) b
  latest-Backed (LatestScan.read balance tip) now h new b =
      elim (Bool-cases (is_lagging tip h.st)) [
        | inl v ↦ rw v (bound_mono w k k' h.st le b)
        | inr v ↦ elim (Bool-cases (contradicts balance tip h.st)) [
          | inl c ↦
              rw (v, c)
                (count_broken-Backed k k' le w h (count_latest_failure now h) (λ e. new (rw (e, c)))
                  b)
          | inr c ↦
              rw (v, c) (observed_latest-Backed w k' balance tip h (bound_mono w k k' h.st le b))
        ]
      ]

once_lt : (k : ℕ) (e : Bool) → e ≡ true → k < k + once e
once_lt k e h = rw h (omega arith)

once_le : (k : ℕ) (e : Bool) → k ≤ k + once e
once_le k e = omega arith

job_end-Backed :
    (w : Watched) (k : ℕ) (job : ActivePayoutJob) (counts : Bool) (now : ℕ) (h : Health)
    → Backed w k h.st
    → Backed w
        (k + once (is_bad w (Observation.job_end job counts now) h.st))
        (apply_job_health_observations job counts now h).st
unfolding apply_job_health_observations
job_end-Backed Watched.anchor k job counts now h b =
    let e = is_missing h.st.config.expected_first_staking_tx_id job.observed_oldest_tx_id in
    apply_cmc_run_result-Backed Watched.anchor (k + once e) (k + once e) (omega arith)
      (unwrap_or job.cmc_attempt_count 0) (unwrap_or job.cmc_success_count 0) counts
      (apply_anchor_observation job.observed_oldest_tx_id now h).st (λ w. absurd cc)
      (apply_anchor_observation-Backed Watched.anchor k (k + once e) (once_le k e)
        job.observed_oldest_tx_id now h (λ w. once_lt k e) b)
job_end-Backed Watched.runs k job counts now h b =
    let e =
      counts
      && ltb 0 (unwrap_or job.cmc_attempt_count 0)
      && (unwrap_or job.cmc_success_count 0 == 0) in
    apply_cmc_run_result-Backed Watched.runs k (k + once e) (once_le k e)
      (unwrap_or job.cmc_attempt_count 0) (unwrap_or job.cmc_success_count 0) counts
      (apply_anchor_observation job.observed_oldest_tx_id now h).st (λ w. once_lt k e)
      (apply_anchor_observation-Backed Watched.runs k k (omega arith) job.observed_oldest_tx_id now
        h (λ w. absurd cc) b)
job_end-Backed Watched.broken k job counts now h b =
    apply_cmc_run_result-Backed Watched.broken k (k + 0) (omega arith)
      (unwrap_or job.cmc_attempt_count 0) (unwrap_or job.cmc_success_count 0) counts
      (apply_anchor_observation job.observed_oldest_tx_id now h).st (λ w. absurd cc)
      (apply_anchor_observation-Backed Watched.broken k k (omega arith) job.observed_oldest_tx_id
        now h (λ w. absurd cc) b)
job_end-Backed Watched.unreadable k job counts now h b =
    apply_cmc_run_result-Backed Watched.unreadable k (k + 0) (omega arith)
      (unwrap_or job.cmc_attempt_count 0) (unwrap_or job.cmc_success_count 0) counts
      (apply_anchor_observation job.observed_oldest_tx_id now h).st (λ w. absurd cc)
      (apply_anchor_observation-Backed Watched.unreadable k k (omega arith)
        job.observed_oldest_tx_id now h (λ w. absurd cc) b)

observe-Backed :
    (w : Watched) (k : ℕ) (o : Observation) (h : Health)
    → Backed w k h.st
    → Backed w (k + once (is_bad w o h.st)) (observe o h).st
unfolding observe
observe-Backed w k (Observation.latest scan now) h b =
    let e = is_bad w (Observation.latest scan now) h.st in
    latest-Backed w k (k + once e) (once_le k e) scan now h (once_lt k e) b
observe-Backed w k (Observation.job_end job counts now) h b = job_end-Backed w k job counts now h b

observe_all-Backed :
    (w : Watched) (k : ℕ) (os : List Observation) (h : Health)
    → Backed w k h.st
    → Backed w (k + bad_observations w os h) (observe_all os h).st
unfolding observe_all bad_observations
observe_all-Backed w k [] h b = bound_mono w k (k + 0) h.st (omega arith) b
observe_all-Backed w k (o ∷ os) h b =
    let e = once (is_bad w o h.st) in
    let r = observe_all-Backed w (k + e) os (observe o h) (observe-Backed w k o h b) in
    bound_mono w (k + e + bad_observations w os (observe o h))
      (k + (e + bad_observations w os (observe o h))) (observe_all os (observe o h)).st
      (omega arith) r

-- From a state without a forced rescue and without counted failures of a kind, any sequence of
-- observations that forces a rescue for that kind of failure held at least two bad observations of
-- it: neither one bad observation, nor any number of good ones, forces a rescue.
pub bad_twice :
    (w : Watched) (os : List Observation) (h : Health)
    → failures w h.st ≡ 0
    → h.st.forced_rescue_reason ≡ none
    → (observe_all os h).st.forced_rescue_reason ≡ some (reason_of w)
    → 2 ≤ bad_observations w os h
bad_twice w os h f n e =
    let r = observe_all-Backed w 0 os h (omega (arith, f), λ s. absurd cc) in
    let z = r.1 e in omega arith
