-- ===== src/Disburser/Poke.antt =====
-- Event Horizon's hints (canisters/disburser/src/scheduler/poke.rs): at most one payout attempt in
-- ten seconds, and one deferred attempt after the last hint.
pub mod History
pub mod Invariant
pub mod Served
mod Tests
use jupiter_faucet_suite.Common.{
  ℕ, ◌-◌, ◌*◌, Bool, true, false, Option, none, some, ltb, not, if◌then◌else◌, sat_add,
}

abbrev pub event_horizon_poke_interval_seconds : ℕ
event_horizon_poke_interval_seconds = 10

abbrev pub nanos_per_second : ℕ
nanos_per_second = 1_000_000_000

abbrev pub interval_ns : ℕ
interval_ns = event_horizon_poke_interval_seconds * nanos_per_second

pub record PokeRuntimeState : Type 0 where
  pub due_at_ns : Option ℕ
  pub timer_pending : Bool
  pub next_attempt_allowed_at_ns : ℕ

pub data DeferredTimerAction : Type 0 where
  stop attempt : DeferredTimerAction
  reschedule : ℕ → DeferredTimerAction

-- The new runtime, and whether a timer has to be scheduled.
unfoldable pub record_hint : ℕ → PokeRuntimeState → PokeRuntimeState × Bool
record_hint now_ns runtime = (
  record runtime { due_at_ns = some (sat_add now_ns interval_ns); timer_pending = true },
  not runtime.timer_pending,
)

unfoldable pub admit_attempt : ℕ → PokeRuntimeState → PokeRuntimeState × Bool
admit_attempt now_ns runtime =
    if ltb now_ns runtime.next_attempt_allowed_at_ns
    then (runtime, false)
    else (record runtime { next_attempt_allowed_at_ns = sat_add now_ns interval_ns }, true)

abbrev on_due : ℕ → Option ℕ → PokeRuntimeState → PokeRuntimeState × DeferredTimerAction
on_due now_ns none runtime = (record runtime { timer_pending = false }, DeferredTimerAction.stop)
on_due now_ns (some due) runtime =
    if ltb now_ns due
    then (runtime, DeferredTimerAction.reschedule (due - now_ns))
    else (record runtime { due_at_ns = none; timer_pending = false }, DeferredTimerAction.attempt)

unfoldable pub deferred_timer_action : ℕ → PokeRuntimeState → PokeRuntimeState × DeferredTimerAction
deferred_timer_action now_ns runtime = on_due now_ns runtime.due_at_ns runtime
