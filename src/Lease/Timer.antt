-- ===== src/Lease/Timer.antt =====
-- `TimerLeaseGuard` of crates/ic-clients/src/timer_guard.rs. The canister owns the lock, an optional
-- expiry in seconds; the guard remembers the expiry that it wrote there.
use jupiter_faucet_suite.Common.{
  ℕ, Bool, true, false, Option, none, some, ltb, option_eq, unwrap_or, if◌then◌else◌, sat_add,
}

pub data LeaseFinish : Type 0 where
  released unchanged : LeaseFinish

pub record TimerLeaseGuard : Type 0 where
  pub active : Bool
  pub lease_expires_at_ts : ℕ

unfoldable pub acquire : ℕ → ℕ → Option ℕ → Option TimerLeaseGuard
acquire now_secs lease_seconds current_lock =
    if ltb now_secs (unwrap_or current_lock 0)
    then none
    else some (record { active = true; lease_expires_at_ts = sat_add now_secs lease_seconds })

-- `release(&mut self, lock)`: the guard afterwards, and whether the caller is to clear its lock.
unfoldable pub release : TimerLeaseGuard → Option ℕ → TimerLeaseGuard × LeaseFinish
release g current_lock =
    if g.active
    then (
      record g { active = false },
      if option_eq current_lock (some g.lease_expires_at_ts)
          then LeaseFinish.released
          else LeaseFinish.unchanged,
    )
    else (g, LeaseFinish.unchanged)
