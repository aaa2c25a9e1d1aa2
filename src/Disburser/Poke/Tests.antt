-- ===== src/Disburser/Poke/Tests.antt =====
-- The hints' theorems at a concrete burst of hints.
use jupiter_faucet_suite.Common.{ℕ, ◌≤◌, ◌≡◌, refl, some, List, [], ◌∷◌, arith}
use jupiter_faucet_suite.Disburser.Poke.{record_hint, admit_attempt, deferred_timer_action}
use jupiter_faucet_suite.Disburser.Poke.History.{
  PokeEvent, hint, fire, attempt_now, handle_event_horizon_poke, deferred_callback, step, run,
  quiet,
}
use jupiter_faucet_suite.Disburser.Poke.Invariant.{Spaced}
use jupiter_faucet_suite.Disburser.Poke.Served.{poke_rate_and_timer, hint_served}

-- Two hints three seconds apart; the timer of the first fires and finds the second.
abbrev burst : List PokeEvent
burst = hint 1_000_000_000 ∷ hint 3_000_000_000 ∷ fire 0 ∷ []

burst_attempts : (run (quiet 0) burst).attempts ≡ 1_000_000_000 ∷ []
unfolding run step deferred_callback handle_event_horizon_poke attempt_now record_hint admit_attempt
    deferred_timer_action
burst_attempts = refl

burst_now : (run (quiet 0) burst).now ≡ 11_000_000_000
unfolding run step deferred_callback handle_event_horizon_poke attempt_now record_hint admit_attempt
    deferred_timer_action
burst_now = refl

burst_due : (run (quiet 0) burst).runtime.due_at_ns ≡ some 14_000_000_000
unfolding run step deferred_callback handle_event_horizon_poke attempt_now record_hint admit_attempt
    deferred_timer_action
burst_due = refl

poke_rate_and_timer_example : Spaced (run (quiet 0) burst).attempts
poke_rate_and_timer_example = (poke_rate_and_timer 0 burst (omega (arith, burst_now))).0

hint_served_example :
    (at : ℕ) × ((step (step (run (quiet 0) burst) (fire 0)) (fire 0)).attempts
      ≡ at ∷ (run (quiet 0) burst).attempts)
    × (14_000_000_000 ≤ at)
hint_served_example = hint_served 0 burst 14_000_000_000 0 0 (omega (arith, burst_now)) burst_due
