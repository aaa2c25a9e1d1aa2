-- ===== src/Faucet/IndexHealth/Tests.antt =====
-- The theorems on the faucet's health, at concrete pages and observations.
use jupiter_faucet_suite.Common.{◌≤◌, ◌<◌, ◌≡◌, refl, true, none, some, List, [], ◌∷◌, unwrap_or}
use jupiter_faucet_suite.Faucet.State.{new, ForcedRescueReason}
use jupiter_faucet_suite.Faucet.Fixtures.{config}
use jupiter_faucet_suite.Faucet.IndexHealth.{
  Health, Page, LatestScan, validate_history_page, apply_anchor_observation,
  count_sustained_failure,
}
use jupiter_faucet_suite.Faucet.IndexHealth.Paging.{Valid, page-Valid}
use jupiter_faucet_suite.Faucet.IndexHealth.Forced.{Watched}
use jupiter_faucet_suite.Faucet.IndexHealth.Latest.{
  apply_latest_observation, record_latest_unreadable_failure, count_latest_failure,
}
use jupiter_faucet_suite.Faucet.IndexHealth.Observations.{
  observe_all, observe, Observation, observe_all, observe, Observation, observe_all, observe,
  Observation, observe_all, observe, Observation, observe_all, observe, Observation, observe_all,
  observe, Observation, observe_all, observe, Observation, observe_all, observe, Observation,
  observe_all, observe, Observation, observe_all, observe, Observation, observe_all, observe,
  Observation, observe_all, observe, Observation, observe_all, observe, Observation, observe_all,
  observe, Observation, Observation, observe, observe_all, bad_observations,
}
use jupiter_faucet_suite.Faucet.IndexHealth.Twice.{bad_twice}
use jupiter_faucet_suite.Faucet.IndexHealth.Sustained.{Missing, anchor_latch, LongAgo}

-- The last page of an account whose oldest entry is 5.
abbrev page : Page
page = record { ids = 9 ∷ 7 ∷ 5 ∷ []; oldest_tx_id = some 5; balance = 30 }

page_validates : validate_history_page page (some 10) (some 5) ≡ some true
unfolding validate_history_page
page_validates = refl

page-Valid_example : Valid page (some 10) (some 5) true
page-Valid_example = page-Valid page (some 10) (some 5) true page_validates

abbrev healthy : Health
healthy = record { st = new config 0; last_anchor_failure = none; last_latest_failure = none }

-- A gap of at least 60 seconds between the two counted failures.
abbrev outage : List Observation
outage =
    Observation.latest LatestScan.unreadable 1000
    ∷ Observation.latest LatestScan.unreadable 1010
    ∷ Observation.latest LatestScan.unreadable 1060
    ∷ []

outage_forces :
    (observe_all outage healthy).st.forced_rescue_reason
    ≡ some ForcedRescueReason.index_latest_unreadable
unfolding new observe observe_all apply_latest_observation record_latest_unreadable_failure
    count_latest_failure count_sustained_failure
outage_forces = refl

healthy_starts : healthy.st.forced_rescue_reason ≡ none
unfolding new
healthy_starts = refl

no_failures : unwrap_or healthy.st.consecutive_index_latest_unreadable_failures 0 ≡ 0
unfolding new
no_failures = refl

bad_twice_example : 2 ≤ bad_observations Watched.unreadable outage healthy
bad_twice_example =
    bad_twice Watched.unreadable outage healthy no_failures healthy_starts outage_forces

-- The anchor, 4, was missing a minute ago.
abbrev shaken : Health
shaken = record {
  st = record (new (record config { expected_first_staking_tx_id = some 4 }) 0) {
    consecutive_index_anchor_failures = some 1;
  };
  last_anchor_failure = some 1000;
  last_latest_failure = none;
}

shaken_starts : shaken.st.forced_rescue_reason ≡ none
unfolding new
shaken_starts = refl

shaken_forces :
    (apply_anchor_observation none 1060 shaken).st.forced_rescue_reason
    ≡ some ForcedRescueReason.index_anchor_missing
unfolding new apply_anchor_observation count_sustained_failure
shaken_forces = refl

anchor_latch_example :
    (◌≡◌ {A = ForcedRescueReason} ForcedRescueReason.index_anchor_missing
      ForcedRescueReason.index_anchor_missing)
    × Missing none (some 4)
    × (0 < unwrap_or shaken.st.consecutive_index_anchor_failures 0)
    × LongAgo 1060 shaken
unfolding new
anchor_latch_example =
    anchor_latch none 1060 shaken ForcedRescueReason.index_anchor_missing shaken_starts
      shaken_forces
