-- ===== src/Disburser/Rescue/Controllers.antt =====
-- Which controllers a rescue tick asks for, and when.
use jupiter_faucet_suite.Common.{
  ℕ, ◌-◌, ◌≤◌, ◌<◌, ◌≡◌, ◌⊎◌, Bool, true, false, Option, none, some, List, All, is_some, is_none,
  ltb, ◌&&◌, ◌||◌, not, unwrap_or, length, if◌then◌else◌,
}
use jupiter_faucet_suite.Ledger.{Principal}
use jupiter_faucet_suite.Disburser.State.{State, ForcedRescueReason, bootstrap_no_success}
use jupiter_faucet_suite.Disburser.Rescue.{
  bootstrap_rescue_due, broken_window_secs, healthy_window_secs, contains,
}

-- The state that the tick decides on: latched, or out of touch for more than two weeks.
abbrev pub is_broken : ℕ → Option ℕ → Bool
is_broken now none = false
is_broken now (some last) = ltb broken_window_secs (now - last)

module _ (self_id rescue : Principal) where
  -- The canister's own principal is in the list, the rescue controller as told, and nobody else.
  abbrev pub Holds : Bool → List Principal → Type 0
  Holds wide cs =
      (contains self_id cs ≡ true)
      × (contains rescue cs ≡ wide)
      × All (λ c. (c ≡ self_id) ⊎ (c ≡ rescue)) cs
      × (length cs ≤ 2)

  -- What a decision is right for a latch, a pending narrowing and the last success: both
  -- controllers, the canister alone, or no change in the window between.
  abbrev pub Decided :
      ℕ → Option ForcedRescueReason → Bool → Option ℕ → Option (List Principal) → Type 0
  Decided now reason triggered last (some cs) =
      Holds (is_some reason || (not (triggered && is_none last) && is_broken now last)) cs
  Decided now reason triggered none none = (reason ≡ none) × (triggered ≡ false)
  Decided now reason triggered (some last) none =
      (reason ≡ none) × (healthy_window_secs < now - last) × (now - last ≤ broken_window_secs)

abbrev pub armed : State → Bool
armed st = unwrap_or st.config.autonomous_rescue_armed false

-- The latch after a tick's first step.
abbrev pub latched : ℕ → State → Option ForcedRescueReason
latched now st =
    if is_some st.forced_rescue_reason
      || bootstrap_rescue_due now st.autonomous_rescue_armed_since_ts st.last_successful_transfer_ts
    then some bootstrap_no_success
    else none
