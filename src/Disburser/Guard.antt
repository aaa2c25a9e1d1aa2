-- ===== src/Disburser/Guard.antt =====
-- `MainGuard` of canisters/disburser/src/scheduler/tick.rs: the lease on the main tick, with the
-- lock kept in the persisted state. A guard is the inner lease.
pub mod Exclusion
use jupiter_faucet_suite.Common.{
  ℕ, ◌*◌, Bool, true, false, Option, none, some, ltb, option_eq, ◌&&◌, if◌then◌else◌,
}
use jupiter_faucet_suite.Lease.Timer.{TimerLeaseGuard, LeaseFinish}
use jupiter_faucet_suite.Lease.Timer
use jupiter_faucet_suite.Disburser.State.{State}

abbrev pub main_tick_lease_seconds : ℕ
main_tick_lease_seconds = 15 * 60

-- `now_secs` is the canister's clock in seconds.
unfoldable pub is_current : TimerLeaseGuard → ℕ → State → Bool
is_current g now_secs st =
    g.active
    && ltb now_secs g.lease_expires_at_ts
    && option_eq st.main_lock_state_ts (some g.lease_expires_at_ts)

abbrev lock : Option TimerLeaseGuard → State → Option (TimerLeaseGuard × State)
lock none st = none
lock (some g) st = some (g, record st { main_lock_state_ts = some g.lease_expires_at_ts })

-- `MainGuard::acquire`.
unfoldable pub acquire : ℕ → State → Option (TimerLeaseGuard × State)
unfolding Timer.acquire
acquire now_secs st = lock (Timer.acquire now_secs main_tick_lease_seconds st.main_lock_state_ts) st

abbrev unlock : LeaseFinish → State → State
unlock LeaseFinish.released st = record st { main_lock_state_ts = some 0 }
unlock LeaseFinish.unchanged st = st

-- `MainGuard::release`, which `Drop` calls too.
unfoldable pub release : TimerLeaseGuard → State → TimerLeaseGuard × State
unfolding Timer.release
release g st =
    if g.active
    then (let (g', finish) = Timer.release g st.main_lock_state_ts in (g', unlock finish st))
    else (g, st)
