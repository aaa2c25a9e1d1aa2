-- ===== src/Disburser/Poke/Served.antt =====
-- Attempts keep their distance, and no hint is lost (canisters/disburser/src/scheduler/poke.rs).
use jupiter_faucet_suite.Common.{
  ℕ, ◌+◌, ◌-◌, ◌≤◌, ap, ◌<◌, ◌≡◌, refl, Bool, true, false, Option, none, some, List, [], ◌∷◌, arith,
  u64_max, ltb, inl, inr, Bool-cases, max, subst, some-injective, ◌∙◌,
}
use jupiter_faucet_suite.Disburser.Poke.{admit_attempt, deferred_timer_action, interval_ns}
use jupiter_faucet_suite.Disburser.Poke.History.{
  PokeWorld, PokeEvent, hint, fire, attempt_now, handle_event_horizon_poke, deferred_callback, step,
  fires, run, quiet,
}
use jupiter_faucet_suite.Disburser.Poke.Invariant.{
  Spaced, Awaited, Inv, handle-Inv, later-Inv, callback-Inv,
}

callback_now :
    (w : PokeWorld) (due : Option ℕ) → w.runtime.due_at_ns ≡ due → (deferred_callback w).now ≡ w.now
unfolding deferred_callback deferred_timer_action attempt_now
callback_now w none e = rw e refl
callback_now w (some due) e = elim (Bool-cases (ltb w.now due)) [
  | inl early ↦ rw (e, early) refl
  | inr at_due ↦ rw (e, at_due) refl
]

fires_now : (later : ℕ) (timer : Option ℕ) (w : PokeWorld) → w.now ≤ (fires later timer w).now
fires_now later none w = omega arith
fires_now later (some t) w =
    rw (callback_now (record w { now = max (w.now + later) t }) _ refl) (omega arith)

step_now : (w : PokeWorld) (e : PokeEvent) → w.now ≤ (step w e).now
unfolding step handle_event_horizon_poke attempt_now
step_now w (hint later) = omega arith
step_now w (fire later) = fires_now later w.timer w

run_now : (es : List PokeEvent) (w : PokeWorld) → w.now ≤ (run w es).now
unfolding run
run_now [] w = omega arith
run_now (e ∷ es) w = omega (arith, step_now w e, run_now es (step w e))

fires-Inv :
    (later : ℕ) (timer : Option ℕ) (w : PokeWorld)
    → (fires later timer w).now + interval_ns ≤ u64_max
    → Inv w
    → Inv (fires later timer w)
fires-Inv later none w bound v = later-Inv w (w.now + later) (omega arith) v
fires-Inv later (some t) w bound v =
    let now : ℕ = max (w.now + later) t in
    callback-Inv w.runtime.due_at_ns w.timer w.runtime.timer_pending
      w.runtime.next_attempt_allowed_at_ns w.attempts now
      (subst (λ n. n + interval_ns ≤ u64_max) (callback_now (record w { now = now }) _ refl) bound)
      (later-Inv w now (omega arith) v)

hint_bound :
    (w : PokeWorld) (later : ℕ)
    → (step w (hint later)).now + interval_ns ≤ u64_max
    → w.now + later + interval_ns ≤ u64_max
unfolding step handle_event_horizon_poke attempt_now
hint_bound w later b = b

step-Inv :
    (w : PokeWorld) (e : PokeEvent)
    → (step w e).now + interval_ns ≤ u64_max
    → Inv w
    → Inv (step w e)
unfolding step
step-Inv w (hint later) bound v =
    handle-Inv (record w { now = w.now + later }) (hint_bound w later bound)
      (later-Inv w (w.now + later) (omega arith) v)
step-Inv w (fire later) bound v = fires-Inv later w.timer w bound v

run-Inv :
    (es : List PokeEvent) (w : PokeWorld)
    → (run w es).now + interval_ns ≤ u64_max
    → Inv w
    → Inv (run w es)
unfolding run
run-Inv [] w bound v = v
run-Inv (e ∷ es) w bound v =
    run-Inv es (step w e) bound (step-Inv w e (omega (arith, bound, run_now es (step w e))) v)

quiet-Inv : (now : ℕ) → Inv (quiet now)
quiet-Inv now = record { spaced = tt; allows = tt; soon = omega arith; awaited = refl }

-- For every history of hints and timer firings from a fresh start, as long as the clock stays an
-- interval below the greatest u64: successive attempts are at least the interval apart; and a timer
-- is there exactly if a hint is pending, it is marked as pending, fires no later than the hint is
-- due, which is within the interval, and by when the rate limit lets an attempt through.
pub poke_rate_and_timer :
    (start : ℕ) (es : List PokeEvent)
    → (run (quiet start) es).now + interval_ns ≤ u64_max
    → let w = run (quiet start) es in
      Spaced w.attempts
      × Awaited w.runtime.due_at_ns w.timer w.runtime.timer_pending
          w.runtime.next_attempt_allowed_at_ns
          (w.now + interval_ns)
poke_rate_and_timer start es bound =
    let v = run-Inv es (quiet start) bound (quiet-Inv start) in (v.spaced, v.awaited)

-- A firing at or after the due time attempts; the rate limit is over by then.
due_attempts :
    (w : PokeWorld) (due : ℕ)
    → w.runtime.due_at_ns ≡ some due
    → w.runtime.next_attempt_allowed_at_ns ≤ due
    → due ≤ w.now
    → ((deferred_callback w).attempts ≡ w.now ∷ w.attempts) × ((deferred_callback w).timer ≡ none)
unfolding deferred_callback deferred_timer_action attempt_now admit_attempt
due_attempts w due e allowed at_due =
    let not_early : ltb w.now due ≡ false = ground arith in
    let admitted : ltb w.now w.runtime.next_attempt_allowed_at_ns ≡ false = ground arith in
    rw (e, not_early, admitted) (refl, refl)

early_reschedules :
    (w : PokeWorld) (due : ℕ)
    → w.runtime.due_at_ns ≡ some due
    → w.now < due
    → deferred_callback w ≡ record w { timer = some due }
unfolding deferred_callback deferred_timer_action
early_reschedules w due e early =
    let is_early : ltb w.now due ≡ true = ground arith in
    let exact : w.now + (due - w.now) ≡ due = omega arith in
    simp (e, is_early) (ap (λ t. record w { timer = some t }) exact)

fires_attempt :
    (later : ℕ) (timer : Option ℕ) (w : PokeWorld) (due t : ℕ)
    → timer ≡ some t
    → w.runtime.due_at_ns ≡ some due
    → w.runtime.next_attempt_allowed_at_ns ≤ due
    → due ≤ max (w.now + later) t
    → ((fires later timer w).attempts ≡ max (w.now + later) t ∷ w.attempts)
      × ((fires later timer w).timer ≡ none)
fires_attempt later timer w due t te de allowed at_due =
    rw te (due_attempts (record w { now = max (w.now + later) t }) due de allowed at_due)

-- Nothing is attempted by a firing that no timer is there for.
idle_fires :
    (later : ℕ) (timer : Option ℕ) (w : PokeWorld)
    → timer ≡ none
    → (fires later timer w).attempts ≡ w.attempts
idle_fires later timer w e = rw e refl

two_firings :
    (w : PokeWorld) (due t a b : ℕ)
    → w.runtime.due_at_ns ≡ some due
    → w.timer ≡ some t
    → w.runtime.next_attempt_allowed_at_ns ≤ due
    → (at : ℕ) × ((step (step w (fire a)) (fire b)).attempts ≡ at ∷ w.attempts) × (due ≤ at)
unfolding step
two_firings w due t a b de te allowed =
    let now : ℕ = max (w.now + a) t in
    elim (Bool-cases (ltb now due)) [
      | inr at_due ↦
          let (grown, off) = fires_attempt a w.timer w due t te de allowed (ground arith) in
          (now, idle_fires b _ (fires a w.timer w) off ∙ grown, ground arith)
      | inl early ↦
          let w' : PokeWorld = record w { now = now; timer = some due } in
          let moved : fires a w.timer w ≡ w' =
            ap (λ timer. fires a timer w) te
            ∙ early_reschedules (record w { now = now }) due de (ground arith) in
          let (grown, off) = fires_attempt b w'.timer w' due due refl de allowed (omega arith) in
          (max (now + b) due, ap (λ v. (fires b v.timer v).attempts) moved ∙ grown, omega arith)
    ]

Awaited-timer :
    (due timer : Option ℕ) (pending : Bool) (next horizon d : ℕ)
    → due ≡ some d
    → Awaited due timer pending next horizon
    → (t : ℕ) × (timer ≡ some t) × (next ≤ d)
Awaited-timer none timer pending next horizon d e a = ground arith
Awaited-timer (some due) none pending next horizon d e a = absurd a
Awaited-timer (some due) (some t) pending next horizon d e a =
    (t, refl, subst (λ n. next ≤ n) (some-injective due d e) a.2)

-- After every history of hints and timer firings from a fresh start whose clock stays an interval
-- below the greatest u64: if a hint is pending and the timer then fires twice, with no other hint
-- before or between the two firings, exactly one of them starts one attempt, at or after the time
-- that the pending hint is due.
pub hint_served :
    (start : ℕ) (es : List PokeEvent) (due a b : ℕ)
    → (run (quiet start) es).now + interval_ns ≤ u64_max
    → (run (quiet start) es).runtime.due_at_ns ≡ some due
    → let w = run (quiet start) es in
      (at : ℕ) × ((step (step w (fire a)) (fire b)).attempts ≡ at ∷ w.attempts) × (due ≤ at)
hint_served start es due a b bound pending =
    let w : PokeWorld = run (quiet start) es in
    let v : Inv w = run-Inv es (quiet start) bound (quiet-Inv start) in
    let (t, te, allowed) =
      Awaited-timer w.runtime.due_at_ns w.timer _ w.runtime.next_attempt_allowed_at_ns _ due pending
        v.awaited in
    two_firings w due t a b pending te allowed
