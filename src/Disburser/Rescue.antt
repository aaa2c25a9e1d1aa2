-- ===== src/Disburser/Rescue.antt =====
-- The rescue tick: canisters/disburser/src/policy.rs and scheduler/rescue.rs. A tick is cut at its
-- one await, the controller update. The order of principals' texts, by which the list is sorted,
-- belongs to the candid crate and is a parameter.
pub mod Controllers
mod Tests
use jupiter_faucet_suite.Common.{
  ℕ, ◌-◌, ◌*◌, Bool, true, false, Option, none, some, List, [], ◌∷◌, ltb, leb, ◌==◌, ◌&&◌, any,
  is_none, is_some, unwrap_or, if◌then◌else◌,
}
use jupiter_faucet_suite.Ledger.{Principal}
use jupiter_faucet_suite.Disburser.State.{State, ForcedRescueReason, bootstrap_no_success}
use jupiter_faucet_suite.Disburser.Split.{secs_per_day}

abbrev pub healthy_window_secs : ℕ
healthy_window_secs = 7 * secs_per_day

abbrev pub broken_window_secs : ℕ
broken_window_secs = 14 * secs_per_day

abbrev pub bootstrap_rescue_window_secs : ℕ
bootstrap_rescue_window_secs = 14 * secs_per_day

unfoldable pub desired_controllers : ℕ → Option ℕ → Principal → Principal → Option (List Principal)
desired_controllers now_secs none self_id rescue_controller = none
desired_controllers now_secs (some last) self_id rescue_controller =
    if leb (now_secs - last) healthy_window_secs
    then some (self_id ∷ [])
    else if ltb broken_window_secs (now_secs - last)
    then some (rescue_controller ∷ self_id ∷ [])
    else none

abbrev elapsed : ℕ → Option ℕ → Bool
elapsed now_secs none = false
elapsed now_secs (some armed_at) = ltb bootstrap_rescue_window_secs (now_secs - armed_at)

unfoldable pub bootstrap_rescue_due : ℕ → Option ℕ → Option ℕ → Bool
bootstrap_rescue_due now_secs armed_since last_success =
    is_none last_success && elapsed now_secs armed_since

unfoldable pub desired_controllers_for_rescue_state :
    ℕ
    → Option ℕ
    → Principal
    → Principal
    → Option ForcedRescueReason
    → Bool
    → Option (List Principal)
unfolding desired_controllers
desired_controllers_for_rescue_state now_secs last_success self_id rescue_controller reason
      triggered =
    if is_some reason
    then some (rescue_controller ∷ self_id ∷ [])
    else if triggered && is_none last_success
    then some (self_id ∷ [])
    else desired_controllers now_secs last_success self_id rescue_controller

-- The first closure of `rescue_tick`: the latch of a canister that never paid out.
unfoldable pub latch_forced_rescue : ℕ → State → State
unfolding bootstrap_rescue_due
latch_forced_rescue now_secs st =
    if is_none st.forced_rescue_reason
      && bootstrap_rescue_due now_secs st.autonomous_rescue_armed_since_ts
          st.last_successful_transfer_ts
    then record st { forced_rescue_reason = some bootstrap_no_success }
    else st

module _ (text_le : Principal → Principal → Bool) where
  abbrev insert_by_text : Principal → List Principal → List Principal
  insert_by_text p [] = p ∷ []
  insert_by_text p (q ∷ qs) = if text_le p q then p ∷ q ∷ qs else q ∷ insert_by_text p qs

  -- The stable `sort_by_key(|a| a.to_text())`.
  abbrev pub sort_by_text : List Principal → List Principal
  sort_by_text [] = []
  sort_by_text (p ∷ ps) = insert_by_text p (sort_by_text ps)

-- `Vec::dedup` drops an element equal to the one before it.
abbrev pub dedup_after : Principal → List Principal → List Principal
dedup_after p [] = []
dedup_after p (q ∷ qs) = if p == q then dedup_after q qs else q ∷ dedup_after q qs

abbrev pub dedup : List Principal → List Principal
dedup [] = []
dedup (p ∷ ps) = p ∷ dedup_after p ps

abbrev pub contains : Principal → List Principal → Bool
contains p = any (λ q. q == p)

abbrev arranged : (Principal → Principal → Bool) → Option (List Principal) → Option (List Principal)
arranged text_le none = none
arranged text_le (some desired) = some (dedup (sort_by_text text_le desired))

-- Up to the await: the state, and the controllers to set, if any.
unfoldable pub rescue_request :
    (Principal → Principal → Bool) → ℕ → Principal → State → State × Option (List Principal)
unfolding latch_forced_rescue desired_controllers_for_rescue_state
rescue_request text_le now_secs self_id st =
    let st' = latch_forced_rescue now_secs st in
    (
      st',
      if unwrap_or st'.config.autonomous_rescue_armed false
          then arranged text_le (
              desired_controllers_for_rescue_state now_secs st'.last_successful_transfer_ts self_id
                st'.config.rescue_controller st'.forced_rescue_reason st'.rescue_triggered)
          else none,
    )

-- After the await; `updated` says that `update_settings` succeeded. The controllers and the rescue
-- controller are those that were read before it.
unfoldable pub rescue_reply : ℕ → Principal → List Principal → Bool → State → State
rescue_reply now_secs rescue_controller desired updated st =
    if updated
    then record st {
      rescue_triggered = contains rescue_controller desired;
      last_rescue_check_ts = now_secs;
    }
    else st
