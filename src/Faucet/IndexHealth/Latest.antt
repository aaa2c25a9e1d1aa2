-- ===== src/Faucet/IndexHealth/Latest.antt =====
-- The rest of what the faucet observes of its health: the newest transaction on the index, and the
-- success of a run's top-ups.
use jupiter_faucet_suite.Common.{
  ℕ, Bool, true, false, Option, none, some, ◌==◌, ◌&&◌, not, is_some, max, unwrap_or, option_eq,
  if◌then◌else◌, leb, ltb,
}
use jupiter_faucet_suite.Faucet.State.{State, ForcedRescueReason, ActivePayoutJob}
use jupiter_faucet_suite.Faucet.IndexHealth.{
  Health, LatestScan, count_sustained_failure, apply_anchor_observation, gap_seconds, latched,
  one_more,
}

abbrev pub latest_failures : State → ℕ
latest_failures st =
    max (unwrap_or st.consecutive_index_latest_invariant_failures 0)
      (unwrap_or st.consecutive_index_latest_unreadable_failures 0)

unfoldable pub count_latest_failure : ℕ → Health → Option ℕ × Bool
count_latest_failure now h =
    count_sustained_failure h.last_latest_failure (latest_failures h.st) now (gap_seconds h.st)

abbrev pub count_unreadable : Health → Option ℕ × Bool → Health
count_unreadable h (last, false) = record h { last_latest_failure = last }
count_unreadable h (last, true) =
    let failures : ℕ = one_more h.st.consecutive_index_latest_unreadable_failures in
    record h {
      last_latest_failure = last;
      st = record h.st {
        consecutive_index_latest_invariant_failures = some 0;
        consecutive_index_latest_unreadable_failures = some failures;
        forced_rescue_reason =
            latched (leb 2 failures) ForcedRescueReason.index_latest_unreadable
              h.st.forced_rescue_reason;
      };
    }

unfoldable pub record_latest_unreadable_failure : ℕ → Health → Health
record_latest_unreadable_failure now h = count_unreadable h (count_latest_failure now h)

abbrev pub count_broken : Health → Option ℕ × Bool → Health
count_broken h (last, false) = record h { last_latest_failure = last }
count_broken h (last, true) =
    let failures : ℕ = one_more h.st.consecutive_index_latest_invariant_failures in
    record h {
      last_latest_failure = last;
      st = record h.st {
        consecutive_index_latest_unreadable_failures = some 0;
        consecutive_index_latest_invariant_failures = some failures;
        forced_rescue_reason =
            latched (leb 2 failures) ForcedRescueReason.index_latest_invariant_broken
              h.st.forced_rescue_reason;
      };
    }

unfoldable pub record_latest_invariant_failure : ℕ → Health → Health
record_latest_invariant_failure now h = count_broken h (count_latest_failure now h)

-- The order of Rust's options: no value comes before every value.
abbrev option_lt : Option ℕ → Option ℕ → Bool
option_lt a none = false
option_lt none (some y) = true
option_lt (some x) (some y) = ltb x y

abbrev pub is_lagging : Option ℕ → State → Bool
is_lagging latest st =
    is_some st.last_observed_staking_balance_e8s && option_lt latest st.last_observed_latest_tx_id

abbrev is_other : ℕ → Option ℕ → Bool
is_other balance none = false
is_other balance (some observed) = not (observed == balance)

abbrev pub contradicts : ℕ → Option ℕ → State → Bool
contradicts balance latest st =
    is_other balance st.last_observed_staking_balance_e8s
    && option_eq latest st.last_observed_latest_tx_id

abbrev pub observed_latest : ℕ → Option ℕ → Health → Health
observed_latest balance latest h = record h {
  last_latest_failure = none;
  st = record h.st {
    last_observed_staking_balance_e8s = some balance;
    last_observed_latest_tx_id = latest;
    consecutive_index_latest_invariant_failures = some 0;
    consecutive_index_latest_unreadable_failures = some 0;
  };
}

unfoldable pub apply_latest_observation : LatestScan → ℕ → Health → Health
apply_latest_observation LatestScan.unreadable now h = record_latest_unreadable_failure now h
apply_latest_observation LatestScan.invariant_broken now h = record_latest_invariant_failure now h
apply_latest_observation (LatestScan.read balance latest) now h =
    if is_lagging latest h.st
    then h
    else if contradicts balance latest h.st
    then record_latest_invariant_failure now h
    else observed_latest balance latest h

abbrev pub zero_success_run : State → State
zero_success_run st =
    let runs : ℕ = one_more st.consecutive_cmc_zero_success_runs in
    record st {
      consecutive_cmc_zero_success_runs = some runs;
      forced_rescue_reason =
          latched (leb 2 runs) ForcedRescueReason.cmc_zero_success_runs st.forced_rescue_reason;
    }

unfoldable pub apply_cmc_run_result : ℕ → ℕ → Bool → State → State
apply_cmc_run_result attempts successes counts st =
    if attempts == 0
    then st
    else if ltb 0 successes
    then record st { consecutive_cmc_zero_success_runs = some 0 }
    else if counts
    then zero_success_run st
    else st

unfoldable pub apply_job_health_observations : ActivePayoutJob → Bool → ℕ → Health → Health
apply_job_health_observations job counts now h =
    let anchored : Health = apply_anchor_observation job.observed_oldest_tx_id now h in
    record anchored {
      st =
          apply_cmc_run_result (unwrap_or job.cmc_attempt_count 0)
            (unwrap_or job.cmc_success_count 0) counts anchored.st;
    }
