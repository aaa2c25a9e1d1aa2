-- ===== src/Faucet/IndexHealth/Observations.antt =====
-- What the faucet observes over time, and what speaks against its health.
use jupiter_faucet_suite.Common.{
  ℕ, ◌+◌, Bool, true, false, Option, none, some, List, [], ◌∷◌, ◌==◌, ◌&&◌, not, unwrap_or,
  option_eq, ltb,
}
use jupiter_faucet_suite.Faucet.State.{State, ActivePayoutJob}
use jupiter_faucet_suite.Faucet.IndexHealth.{Health, LatestScan}
use jupiter_faucet_suite.Faucet.IndexHealth.Latest.{
  apply_latest_observation, contradicts, apply_job_health_observations,
}
use jupiter_faucet_suite.Faucet.IndexHealth.Forced.{Watched}

-- What the faucet observes: the index's newest transaction, and a job that ended.
pub data Observation : Type 0 where
  latest : LatestScan → ℕ → Observation
  job_end : ActivePayoutJob → Bool → ℕ → Observation

unfoldable pub observe : Observation → Health → Health
observe (Observation.latest scan now) h = apply_latest_observation scan now h
observe (Observation.job_end job counts now) h = apply_job_health_observations job counts now h

abbrev pub is_missing : Option ℕ → Option ℕ → Bool
is_missing none observed = false
is_missing (some expected) observed = not (option_eq observed (some expected))

-- Whether an observation speaks against the health: the first transaction is not the expected one,
-- the index breaks its order or changes the balance without a new transaction, it does not answer,
-- or a run made attempts without success.
abbrev pub is_bad : Watched → Observation → State → Bool
is_bad Watched.anchor (Observation.latest scan now) st = false
is_bad Watched.anchor (Observation.job_end job counts now) st =
    is_missing st.config.expected_first_staking_tx_id job.observed_oldest_tx_id
is_bad Watched.broken (Observation.latest LatestScan.unreadable now) st = false
is_bad Watched.broken (Observation.latest LatestScan.invariant_broken now) st = true
is_bad Watched.broken (Observation.latest (LatestScan.read balance tip) now) st =
    contradicts balance tip st
is_bad Watched.broken (Observation.job_end job counts now) st = false
is_bad Watched.unreadable (Observation.latest LatestScan.unreadable now) st = true
is_bad Watched.unreadable (Observation.latest LatestScan.invariant_broken now) st = false
is_bad Watched.unreadable (Observation.latest (LatestScan.read balance tip) now) st = false
is_bad Watched.unreadable (Observation.job_end job counts now) st = false
is_bad Watched.runs (Observation.latest scan now) st = false
is_bad Watched.runs (Observation.job_end job counts now) st =
    counts && ltb 0 (unwrap_or job.cmc_attempt_count 0) && (unwrap_or job.cmc_success_count 0 == 0)

abbrev pub once : Bool → ℕ
once true = 1
once false = 0

unfoldable pub observe_all : List Observation → Health → Health
observe_all [] h = h
observe_all (o ∷ os) h = observe_all os (observe o h)

unfoldable pub bad_observations : Watched → List Observation → Health → ℕ
bad_observations w [] h = 0
bad_observations w (o ∷ os) h = once (is_bad w o h.st) + bad_observations w os (observe o h)
