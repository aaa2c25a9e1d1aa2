-- ===== src/Disburser/MainTick/Retry.antt =====
-- The one retry of a scheduled tick that found the lock taken or came too early
-- (canisters/disburser/src/scheduler/tick.rs). A platform timer is the reservation it was set with.
pub mod OneLive
use jupiter_faucet_suite.Common.{
  ℕ, zero, suc, ◌+◌, ◌≤◌, ◌≡◌, inl, inr, refl, Bool, true, false, Option, none, some, List, [], ◌∷◌,
  arith, ◌++◌, ◌==◌, ◌&&◌, option_eq, Bool-cases, if◌then◌else◌, All,
}
use jupiter_faucet_suite.Disburser.MainTick.{
  Runtime, MainTickOutcome, advance_main_run_marker, with_marker,
}

abbrev pub scheduled_main_retry_seconds : ℕ
scheduled_main_retry_seconds = 60

abbrev pub retry_after_seconds : MainTickOutcome → Option ℕ
retry_after_seconds MainTickOutcome.completed = none
retry_after_seconds MainTickOutcome.main_guard_busy = some scheduled_main_retry_seconds
retry_after_seconds (MainTickOutcome.deferred remaining) = some remaining

unfoldable pub reserve_scheduled_main_retry : Runtime → Runtime × Option ℕ
reserve_scheduled_main_retry rt =
    if option_eq rt.scheduled_main_retry_pending (some rt.main_run_marker) then (rt, none) else (
      record rt { scheduled_main_retry_pending = some rt.main_run_marker },
      some rt.main_run_marker,
    )

-- The first part of `run_scheduled_main_retry`: whether the timer's run starts.
unfoldable pub claim_scheduled_main_retry : ℕ → Runtime → Runtime × Bool
claim_scheduled_main_retry reservation rt =
    if option_eq rt.scheduled_main_retry_pending (some reservation)
    then (record rt { scheduled_main_retry_pending = none }, rt.main_run_marker == reservation)
    else (rt, false)

pub record Retries : Type 0 where
  pub runtime : Runtime
  pub timers : List ℕ

abbrev scheduled : List ℕ → Option ℕ → List ℕ
scheduled timers none = timers
scheduled timers (some reservation) = reservation ∷ timers

abbrev pub with_outcome : ℕ → Option ℕ → Retries → Retries
with_outcome marker none w = w
with_outcome marker (some seconds) w =
    if w.runtime.main_run_marker == marker
    then (let (runtime, reservation) = reserve_scheduled_main_retry w.runtime in
        record { runtime = runtime; timers = scheduled w.timers reservation })
    else w

-- The end of `run_scheduled_main_tick`, which read `marker` when it began.
unfoldable pub run_scheduled_main_tick : ℕ → MainTickOutcome → Retries → Retries
unfolding reserve_scheduled_main_retry
run_scheduled_main_tick marker outcome w = with_outcome marker (retry_after_seconds outcome) w

-- The timer at a position, and the others.
abbrev pub taken : ℕ → List ℕ → List ℕ → Option (ℕ × List ℕ)
taken i before [] = none
taken zero before (t ∷ ts) = some (t, before ++ ts)
taken (suc i) before (t ∷ ts) = taken i (t ∷ before) ts

abbrev pub fired : Runtime → Option (ℕ × List ℕ) → Retries → Retries
fired rt none w = w
fired rt (some (reservation, others)) w = record {
  runtime = (claim_scheduled_main_retry reservation rt).0;
  timers = others;
}

abbrev pub or_same : Runtime → Option Runtime → Runtime
or_same rt none = rt
or_same rt (some rt') = rt'

-- A tick begins or finishes its work; a scheduled run ends; a timer fires.
pub data RetryEvent : Type 0 where
  advance : RetryEvent
  run_ends : ℕ → MainTickOutcome → RetryEvent
  timer_fires : ℕ → RetryEvent

unfoldable pub step : Retries → RetryEvent → Retries
unfolding advance_main_run_marker run_scheduled_main_tick claim_scheduled_main_retry
step w advance = record w { runtime = or_same w.runtime (advance_main_run_marker w.runtime) }
step w (run_ends marker outcome) = run_scheduled_main_tick marker outcome w
step w (timer_fires i) = fired w.runtime (taken i [] w.timers) w

unfoldable pub run : Retries → List RetryEvent → Retries
run w [] = w
run w (e ∷ es) = run (step w e) es

-- The timers whose firing would start a run.
unfoldable pub live_timers : Runtime → List ℕ → ℕ
unfolding claim_scheduled_main_retry
live_timers rt [] = 0
live_timers rt (t ∷ ts) = (if (claim_scheduled_main_retry t rt).1 then 1 else 0) + live_timers rt ts
