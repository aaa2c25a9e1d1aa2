-- ===== src/Lease/Fenced.antt =====
-- `FencedTimerLeaseGuard` of crates/ic-clients/src/timer_guard.rs: a lease with a generation, so that
-- an owner whose lease ran out cannot write after a successor has acquired.
pub mod Exclusion
use jupiter_faucet_suite.Common.{
  ℕ, ◌≤◌, Bool, true, false, Option, none, some, ltb, ◌==◌, ◌&&◌, not, option_eq, unwrap_or,
  if◌then◌else◌, sat_add, checked_add,
}
use jupiter_faucet_suite.Lease.Timer.{LeaseFinish}

pub record FencedTimerLeaseGuard : Type 0 where
  pub active : Bool
  pub lease_expires_at_ts : ℕ
  pub generation : ℕ

-- `current_generation.checked_add(1)?` inside the struct literal.
with_generation : ℕ → ℕ → Option ℕ → Option FencedTimerLeaseGuard
with_generation now_secs lease_seconds none = none
with_generation now_secs lease_seconds (some g) =
    some (record {
      active = true;
      lease_expires_at_ts = sat_add now_secs lease_seconds;
      generation = g;
    })

unfoldable pub acquire : ℕ → ℕ → Option ℕ → ℕ → Bool → Option FencedTimerLeaseGuard
unfolding with_generation
acquire now_secs lease_seconds current_lock current_generation preempt_unexpired =
    if not preempt_unexpired && ltb now_secs (unwrap_or current_lock 0)
    then none
    else with_generation now_secs lease_seconds (checked_add current_generation 1)

unfoldable pub owns : FencedTimerLeaseGuard → Option ℕ → ℕ → Bool
owns g current_lock current_generation =
    g.active
    && option_eq current_lock (some g.lease_expires_at_ts)
    && current_generation == g.generation

unfoldable pub release : FencedTimerLeaseGuard → Option ℕ → ℕ → FencedTimerLeaseGuard × LeaseFinish
unfolding owns
release g current_lock current_generation =
    if g.active
    then (
      record g { active = false },
      if owns g current_lock current_generation
          then LeaseFinish.released
          else LeaseFinish.unchanged,
    )
    else (g, LeaseFinish.unchanged)
