-- ===== src/Disburser/Poke/History.antt =====
-- The handler and the timer callback of canisters/disburser/src/scheduler/poke.rs, over a history of
-- hints and firings. The platform's timer is the time at which it fires; an attempt is the time at
-- which the worker starts.
use jupiter_faucet_suite.Common.{
  ℕ, ◌+◌, false, Option, none, some, List, [], ◌∷◌, if◌then◌else◌, max,
}
use jupiter_faucet_suite.Disburser.Poke.{
  PokeRuntimeState, DeferredTimerAction, record_hint, admit_attempt, deferred_timer_action,
  interval_ns,
}

pub record PokeWorld : Type 0 where
  pub runtime : PokeRuntimeState
  pub timer : Option ℕ
  pub attempts : List ℕ
  pub now : ℕ

pub data PokeEvent : Type 0 where
  hint fire : ℕ → PokeEvent

-- `if admit_attempt(now) { run_worker().await }`.
unfoldable pub attempt_now : PokeWorld → PokeWorld
attempt_now w =
    let (runtime, admitted) = admit_attempt w.now w.runtime in
    record w { runtime = runtime; attempts = if admitted then w.now ∷ w.attempts else w.attempts }

-- `handle_event_horizon_poke`.
unfoldable pub handle_event_horizon_poke : PokeWorld → PokeWorld
handle_event_horizon_poke w =
    let (runtime, schedules) = record_hint w.now w.runtime in
    attempt_now (record w {
      runtime = runtime;
      timer = if schedules then some (w.now + interval_ns) else w.timer;
    })

abbrev on_action : PokeWorld → PokeRuntimeState × DeferredTimerAction → PokeWorld
on_action w (runtime, DeferredTimerAction.stop) = record w { runtime = runtime; timer = none }
on_action w (runtime, DeferredTimerAction.reschedule remaining) = record w {
  runtime = runtime;
  timer = some (w.now + remaining);
}
on_action w (runtime, DeferredTimerAction.attempt) =
    attempt_now (record w { runtime = runtime; timer = none })

-- The callback that `schedule_deferred` installs.
unfoldable pub deferred_callback : PokeWorld → PokeWorld
deferred_callback w = on_action w (deferred_timer_action w.now w.runtime)

abbrev pub fires : ℕ → Option ℕ → PokeWorld → PokeWorld
fires later none w = record w { now = w.now + later }
fires later (some due) w = deferred_callback (record w { now = max (w.now + later) due })

-- Time passes, then a hint arrives, or the timer fires, never before its time.
unfoldable pub step : PokeWorld → PokeEvent → PokeWorld
step w (hint later) = handle_event_horizon_poke (record w { now = w.now + later })
step w (fire later) = fires later w.timer w

unfoldable pub run : PokeWorld → List PokeEvent → PokeWorld
run w [] = w
run w (e ∷ es) = run (step w e) es

abbrev pub quiet : ℕ → PokeWorld
quiet now = record {
  runtime = record { due_at_ns = none; timer_pending = false; next_attempt_allowed_at_ns = 0 };
  timer = none;
  attempts = [];
  now = now;
}
