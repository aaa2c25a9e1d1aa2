-- ===== src/Faucet/IndexHealth.antt =====
-- The faucet's watch on the index canister (canisters/faucet/src/scheduler/index_health.rs): the
-- validation of a page of history, and the failures that latch a forced rescue. Of a transaction only
-- its id is read; the failure counters are u8, and the times of the last counted failures live in the
-- heap.
pub mod Paging
pub mod Latest
pub mod Forced
pub mod Observations
mod Tests
pub mod Sustained
pub mod Twice
use jupiter_faucet_suite.Common.{
  ℕ, ◌+◌, ◌-◌, Bool, true, false, Option, none, some, List, [], ◌∷◌, ◌==◌, ◌&&◌, ◌||◌, not, is_none,
  is_some, min, max, unwrap_or, option_eq, if◌then◌else◌, leb, ltb, length,
}
use jupiter_faucet_suite.Faucet.State.{State, ForcedRescueReason}

abbrev pub page_size : ℕ
page_size = 500

pub record Page : Type 0 where
  pub ids : List ℕ
  pub oldest_tx_id : Option ℕ
  pub balance : ℕ

abbrev pub last_id : List ℕ → Option ℕ
last_id [] = none
last_id (i ∷ []) = some i
last_id (i ∷ j ∷ is) = last_id (j ∷ is)

abbrev first_id : List ℕ → Option ℕ
first_id [] = none
first_id (i ∷ is) = some i

abbrev pub not_descending : List ℕ → Bool
not_descending [] = false
not_descending (i ∷ []) = false
not_descending (i ∷ j ∷ is) = leb i j || not_descending (j ∷ is)

-- `expected.is_some_and(|id| oldest != Some(id))`
abbrev differs : Option ℕ → Option ℕ → Bool
differs none oldest = false
differs (some id) oldest = not (option_eq oldest (some id))

abbrev reaches_cursor : Option ℕ → Option ℕ → Bool
reaches_cursor none cursor = false
reaches_cursor (some id) none = false
reaches_cursor (some id) (some c) = leb c id

abbrev pub below_oldest : Option ℕ → List ℕ → Bool
below_oldest oldest [] = false
below_oldest none (i ∷ is) = true
below_oldest (some o) (i ∷ is) = ltb i o || below_oldest (some o) is

abbrev pub is_invalid : Page → Option ℕ → Option ℕ → Bool
is_invalid page cursor expected_oldest =
    differs expected_oldest page.oldest_tx_id
    || ltb page_size (length page.ids)
    || not_descending page.ids
    || reaches_cursor (first_id page.ids) cursor
    || below_oldest page.oldest_tx_id page.ids

abbrev pub at_end : Option ℕ → Option ℕ → Option Bool
at_end none none = some true
at_end none (some oldest) = none
at_end (some cursor) none = none
at_end (some cursor) (some oldest) = if cursor == oldest then some true else none

abbrev pub ending : List ℕ → Option ℕ → Option ℕ → Option Bool
ending [] cursor oldest = at_end cursor oldest
ending (i ∷ is) cursor oldest = some (option_eq (last_id (i ∷ is)) oldest)

unfoldable pub validate_history_page : Page → Option ℕ → Option ℕ → Option Bool
validate_history_page page cursor expected_oldest =
    if is_invalid page cursor expected_oldest
    then none
    else ending page.ids cursor page.oldest_tx_id

pub data LatestScan : Type 0 where
  read : ℕ → Option ℕ → LatestScan
  unreadable invariant_broken : LatestScan

abbrev is_empty_page : Option ℕ → Option ℕ → Bool
is_empty_page start none = true
is_empty_page none (some oldest) = false
is_empty_page (some cursor) (some oldest) = leb cursor oldest

abbrev is_readable : Page → Option ℕ → List ℕ → Bool
is_readable page start [] = is_empty_page start page.oldest_tx_id
is_readable page start ids = is_some (validate_history_page page start none)

-- `none` is a failed call.
unfoldable pub scan_latest_observation : Option Page → Option ℕ → LatestScan
scan_latest_observation none start = LatestScan.unreadable
scan_latest_observation (some page) start =
    if is_readable page start page.ids
    then LatestScan.read page.balance (first_id page.ids)
    else LatestScan.invariant_broken

-- The state with the times of the last counted failures.
pub record Health : Type 0 where
  pub st : State
  pub last_anchor_failure : Option ℕ
  pub last_latest_failure : Option ℕ

abbrev pub count_later : ℕ → ℕ → Option ℕ → Option ℕ × Bool
count_later now gap none = (some now, false)
count_later now gap (some previous) =
    if leb gap (now - previous) then (some now, true) else (some previous, false)

-- The last counted failure after this one, and whether this one counts.
unfoldable pub count_sustained_failure : Option ℕ → ℕ → ℕ → ℕ → Option ℕ × Bool
count_sustained_failure last failures now gap =
    if failures == 0 then (some now, true) else count_later now gap last

abbrev pub gap_seconds : State → ℕ
gap_seconds st = max st.config.main_interval_seconds 60

abbrev pub one_more : Option ℕ → ℕ
one_more failures = min (unwrap_or failures 0 + 1) 255

abbrev pub latched :
    Bool → ForcedRescueReason → Option ForcedRescueReason → Option ForcedRescueReason
latched sustained reason (some earlier) = some earlier
latched sustained reason none = if sustained then some reason else none

abbrev count_anchor : Health → Option ℕ × Bool → Health
count_anchor h (last, false) = record h { last_anchor_failure = last }
count_anchor h (last, true) =
    let failures : ℕ = one_more h.st.consecutive_index_anchor_failures in
    record h {
      last_anchor_failure = last;
      st = record h.st {
        consecutive_index_anchor_failures = some failures;
        forced_rescue_reason =
            latched (leb 2 failures) ForcedRescueReason.index_anchor_missing
              h.st.forced_rescue_reason;
      };
    }

abbrev anchored : Health → Health
anchored h = record h {
  last_anchor_failure = none;
  st = record h.st { consecutive_index_anchor_failures = some 0 };
}

abbrev pub observe_anchor : Option ℕ → ℕ → Health → Option ℕ → Health
observe_anchor observed now h none = h
observe_anchor observed now h (some expected) =
    if option_eq observed (some expected)
    then anchored h
    else count_anchor h (
        count_sustained_failure h.last_anchor_failure
          (unwrap_or h.st.consecutive_index_anchor_failures 0) now (gap_seconds h.st))

unfoldable pub apply_anchor_observation : Option ℕ → ℕ → Health → Health
apply_anchor_observation observed now h =
    observe_anchor observed now h h.st.config.expected_first_staking_tx_id
