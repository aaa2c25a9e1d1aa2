-- ===== src/Disburser/MainTick/Retry/OneLive.antt =====
-- Reservations and timers of the scheduled retry match (canisters/disburser/src/scheduler/tick.rs).
use jupiter_faucet_suite.Common.{
  ℕ, zero, suc, ◌+◌, ◌≤◌, ◌≡◌, inl, inr, refl, true, Option, none, some, List, [], ◌∷◌, ◌++◌, arith,
  ◌==◌, is_some, option_eq, Bool-cases, subst, if◌then◌else◌, leb, u64_max, ◌∙◌,
}
use jupiter_faucet_suite.Disburser.State.{State}
use jupiter_faucet_suite.Disburser.MainTick.{Runtime, advance_main_run_marker}
use jupiter_faucet_suite.Disburser.MainTick.Retry.{
  Retries, RetryEvent, advance, run_ends, timer_fires, reserve_scheduled_main_retry,
  claim_scheduled_main_retry, run_scheduled_main_tick, retry_after_seconds, with_outcome, taken,
  fired, or_same, step, run, live_timers,
}

abbrev count : ℕ → List ℕ → ℕ
count m [] = 0
count m (t ∷ ts) = (if m == t then 1 else 0) + count m ts

abbrev Past : ℕ → List ℕ → Type 0
Past m [] = Unit
Past m (t ∷ ts) = (t ≤ m) × Past m ts

-- A reservation is that of the current marker and has its one timer.
abbrev Matched : Option ℕ → ℕ → List ℕ → Type 0
Matched none m ts = (count m ts ≡ 0) × Past m ts
Matched (some r) m ts = (r ≡ m) × (count m ts ≡ 1) × Past m ts

abbrev IsMatched : Retries → Type 0
IsMatched w = Matched w.runtime.scheduled_main_retry_pending w.runtime.main_run_marker w.timers

later_marker : (m : ℕ) (ts : List ℕ) → Past m ts → (count (m + 1) ts ≡ 0) × Past (m + 1) ts
later_marker m [] p = (refl, tt)
later_marker m (t ∷ ts) p = let (c, p') = later_marker m ts p.1 in ground arith

count-append :
    (m : ℕ) (xs ys : List ℕ)
    → Past m xs
    → Past m ys
    → (count m (xs ++ ys) ≡ count m xs + count m ys) × Past m (xs ++ ys)
count-append m [] ys px py = (omega arith, py)
count-append m (x ∷ xs) ys px py =
    let (c, p) = count-append m xs ys px.1 py in (omega (arith, c), (px.0, p))

-- A timer was taken out, and nothing else.
abbrev Taken : ℕ → ℕ → Option (ℕ × List ℕ) → Type 0
Taken m total none = Unit
Taken m total (some (r, others)) =
    (r ≤ m) × (count m others + (if m == r then 1 else 0) ≡ total) × Past m others

taken-Taken :
    (i m : ℕ) (before ts : List ℕ)
    → Past m before
    → Past m ts
    → Taken m (count m before + count m ts) (taken i before ts)
taken-Taken i m before [] pb ps = tt
taken-Taken zero m before (t ∷ ts) pb ps =
    let (c, p) = count-append m before ts pb ps.1 in (ps.0, omega (arith, c), p)
taken-Taken (suc i) m before (t ∷ ts) pb ps =
    subst (λ n. Taken m n (taken i (t ∷ before) ts)) (omega arith)
      (taken-Taken i m (t ∷ before) ts (ps.0, pb) ps.1)

live_count :
    (pending : Option ℕ) (m : ℕ) (st : State) (ts all : List ℕ)
    → Matched pending m all
    → live_timers
        (record { state = st; main_run_marker = m; scheduled_main_retry_pending = pending })
        ts
      ≡ (if is_some pending then count m ts else 0)
unfolding live_timers claim_scheduled_main_retry
live_count none m st [] all h = refl
live_count none m st (t ∷ ts) all h = omega (arith, live_count none m st ts all h)
live_count (some r) m st [] all h = refl
live_count (some r) m st (t ∷ ts) all h =
    let ih = live_count (some r) m st ts all h in ground (arith, ih)

abbrev runtime_with : State → ℕ → Option ℕ → Runtime
runtime_with st m pending = record {
  state = st;
  main_run_marker = m;
  scheduled_main_retry_pending = pending;
}

Matched-Past : (pending : Option ℕ) (m : ℕ) (ts : List ℕ) → Matched pending m ts → Past m ts
Matched-Past none m ts h = h.1
Matched-Past (some r) m ts h = h.2

advance-IsMatched :
    (pending : Option ℕ) (m : ℕ) (st : State) (ts : List ℕ)
    → Matched pending m ts
    → IsMatched (record {
      runtime =
          or_same (runtime_with st m pending) (advance_main_run_marker (runtime_with st m pending));
      timers = ts;
    })
unfolding advance_main_run_marker
advance-IsMatched pending m st ts h = elim (Bool-cases (leb (m + 1) u64_max)) [
  | inl next ↦ rw next (later_marker m ts (Matched-Past pending m ts h))
  | inr over ↦ rw over h
]

reserve-IsMatched :
    (pending : Option ℕ) (m : ℕ) (st : State) (ts : List ℕ) (marker : ℕ) (seconds : ℕ)
    → Matched pending m ts
    → IsMatched (
        with_outcome marker
          (some seconds)
          (record { runtime = runtime_with st m pending; timers = ts }))
unfolding reserve_scheduled_main_retry
reserve-IsMatched none m st ts marker seconds h = elim (Bool-cases (m == marker)) [
  | inl same ↦ rw same (refl, ground arith, (omega arith, h.1))
  | inr other ↦ rw other h
]
reserve-IsMatched (some r) m st ts marker seconds h = elim (Bool-cases (m == marker)) [
  | inl same ↦
      let held : option_eq (some r) (some m) ≡ true = ground (arith, h) in rw (same, held) h
  | inr other ↦ rw other h
]

fired-IsMatched :
    (pending : Option ℕ) (m : ℕ) (st : State) (ts : List ℕ) (o : Option (ℕ × List ℕ))
    → Matched pending m ts
    → Taken m (count m ts) o
    → IsMatched (
        fired
          (runtime_with st m pending)
          o
          (record { runtime = runtime_with st m pending; timers = ts }))
unfolding claim_scheduled_main_retry
fired-IsMatched pending m st ts none h t = h
fired-IsMatched none m st ts (some (r, others)) h t = (omega (arith, h, t), t.2)
fired-IsMatched (some p) m st ts (some (r, others)) h t = elim (Bool-cases (p == r)) [
  | inl own ↦ rw own (ground (arith, h, t), t.2)
  | inr other ↦ rw other (h.0, ground (arith, h, t), t.2)
]

outcome-IsMatched :
    (w : Retries) (marker : ℕ) (seconds : Option ℕ)
    → IsMatched w
    → IsMatched (with_outcome marker seconds w)
outcome-IsMatched w marker none h = h
outcome-IsMatched w marker (some seconds) h =
    reserve-IsMatched w.runtime.scheduled_main_retry_pending w.runtime.main_run_marker
      w.runtime.state w.timers marker seconds h

step-IsMatched : (w : Retries) (e : RetryEvent) → IsMatched w → IsMatched (step w e)
unfolding step run_scheduled_main_tick
step-IsMatched w advance h =
    advance-IsMatched w.runtime.scheduled_main_retry_pending w.runtime.main_run_marker
      w.runtime.state w.timers h
step-IsMatched w (run_ends marker outcome) h =
    outcome-IsMatched w marker (retry_after_seconds outcome) h
step-IsMatched w (timer_fires i) h =
    fired-IsMatched w.runtime.scheduled_main_retry_pending w.runtime.main_run_marker w.runtime.state
      w.timers (taken i [] w.timers) h
      (subst (λ n. Taken w.runtime.main_run_marker n (taken i [] w.timers)) (omega arith)
        (taken-Taken i w.runtime.main_run_marker [] w.timers tt (
          Matched-Past w.runtime.scheduled_main_retry_pending w.runtime.main_run_marker w.timers
            h)))

run-IsMatched : (es : List RetryEvent) (w : Retries) → IsMatched w → IsMatched (run w es)
unfolding run
run-IsMatched [] w h = h
run-IsMatched (e ∷ es) w h = run-IsMatched es (step w e) (step-IsMatched w e h)

Matched-live :
    (pending : Option ℕ) (m : ℕ) (st : State) (ts : List ℕ)
    → Matched pending m ts
    → live_timers (runtime_with st m pending) ts ≡ (if is_some pending then 1 else 0)
Matched-live none m st ts h = live_count none m st ts ts h
Matched-live (some r) m st ts h = live_count (some r) m st ts ts h ∙ h.1

-- From a start without timers and reservations, whatever ticks begin, finish and end with any
-- outcome, and whichever timers fire in any order: if a retry is reserved, exactly one of the set
-- timers would start a run when it fires, and if none is reserved, none would.
pub one_live_retry :
    (st : State) (marker : ℕ) (es : List RetryEvent)
    → let w =
        run
          (record {
            runtime = record {
              state = st;
              main_run_marker = marker;
              scheduled_main_retry_pending = none;
            };
            timers = [];
          })
          es in
      live_timers w.runtime w.timers
      ≡ (if is_some w.runtime.scheduled_main_retry_pending then 1 else 0)
one_live_retry st marker es =
    let w : Retries = run (record { runtime = runtime_with st marker none; timers = [] }) es in
    Matched-live w.runtime.scheduled_main_retry_pending w.runtime.main_run_marker w.runtime.state
      w.timers (run-IsMatched es _ (refl, tt))
