-- ===== src/Disburser/Poke/Invariant.antt =====
-- The invariant of the hints' runtime state (canisters/disburser/src/scheduler/poke.rs).
use jupiter_faucet_suite.Common.{
  ℕ, ◌+◌, ◌≤◌, ◌≡◌, ◌⊎◌, inl, inr, refl, Bool, true, false, Option, none, some, List, [], ◌∷◌,
  arith, u64_max, ltb, Bool-cases, if◌then◌else◌, not, sat_add, ap,
}
use jupiter_faucet_suite.Disburser.Poke.{
  record_hint, admit_attempt, deferred_timer_action, interval_ns,
}
use jupiter_faucet_suite.Disburser.Poke.History.{
  PokeWorld, attempt_now, handle_event_horizon_poke, deferred_callback,
}

-- Newest first, each at least the interval after the one before.
abbrev pub Spaced : List ℕ → Type 0
Spaced [] = Unit
Spaced (a ∷ []) = Unit
Spaced (a ∷ b ∷ rest) = (b + interval_ns ≤ a) × Spaced (b ∷ rest)

-- The newest attempt set the time of the next.
abbrev Allows : List ℕ → ℕ → Type 0
Allows [] next = Unit
Allows (a ∷ rest) next = a + interval_ns ≤ next

-- The pending hint and the timer: both are there, or neither; the timer fires no later than the hint
-- is due, and by then an
-- attempt is allowed.
abbrev pub Awaited : Option ℕ → Option ℕ → Bool → ℕ → ℕ → Type 0
Awaited none none pending next horizon = pending ≡ false
Awaited (some due) (some timer) pending next horizon =
    (pending ≡ true) × (timer ≤ due) × (next ≤ due) × (due ≤ horizon)
Awaited none (some timer) pending next horizon = ⊥
Awaited (some due) none pending next horizon = ⊥

pub record Inv (w : PokeWorld) : Type 0 where
  pub spaced : Spaced w.attempts
  pub allows : Allows w.attempts w.runtime.next_attempt_allowed_at_ns
  pub soon : w.runtime.next_attempt_allowed_at_ns ≤ w.now + interval_ns
  pub awaited :
      Awaited w.runtime.due_at_ns w.timer w.runtime.timer_pending
        w.runtime.next_attempt_allowed_at_ns
        (w.now + interval_ns)

attempt_now-Spaced :
    (now next : ℕ) (attempts : List ℕ)
    → next ≤ now
    → Spaced attempts
    → Allows attempts next
    → Spaced (now ∷ attempts)
attempt_now-Spaced now next [] le s a = tt
attempt_now-Spaced now next (b ∷ rest) le s a = (omega arith, s)

-- The handler's part without the attempt: a hint moves the due time to the horizon.
hint-Awaited :
    (due timer : Option ℕ) (pending : Bool) (next now : ℕ)
    → next ≤ now + interval_ns
    → Awaited due timer pending next (now + interval_ns)
    → Awaited
        (some (now + interval_ns))
        (if not pending then some (now + interval_ns) else timer)
        true
        next
        (now + interval_ns)
hint-Awaited none none pending next now le a = ground arith
hint-Awaited (some due) (some timer) pending next now le a = ground arith
hint-Awaited none (some timer) pending next now le a = absurd a
hint-Awaited (some due) none pending next now le a = absurd a

-- A time later than the pending due time's horizon keeps the rest.
Awaited-later :
    (due timer : Option ℕ) (pending : Bool) (next now later : ℕ)
    → now ≤ later
    → Awaited due timer pending next (now + interval_ns)
    → Awaited due timer pending next (later + interval_ns)
Awaited-later none none pending next now later le a = a
Awaited-later (some due) (some timer) pending next now later le a = ground arith
Awaited-later none (some timer) pending next now later le a = absurd a
Awaited-later (some due) none pending next now later le a = absurd a

-- An attempt sets the next allowed time to the horizon, which no due time precedes if the hint was
-- just recorded, and which nothing waits for if none is pending.
abbrev Fresh : PokeWorld → Type 0
Fresh w = (w.runtime.due_at_ns ≡ none) ⊎ (w.runtime.due_at_ns ≡ some (w.now + interval_ns))

raise_next :
    (due timer : Option ℕ) (pending : Bool) (next horizon : ℕ)
    → (due ≡ none) ⊎ (due ≡ some horizon)
    → Awaited due timer pending next horizon
    → Awaited due timer pending horizon horizon
raise_next none none pending next horizon f a = a
raise_next (some due) (some timer) pending next horizon f a = ground arith
raise_next none (some timer) pending next horizon f a = absurd a
raise_next (some due) none pending next horizon f a = absurd a

attempt_now-Inv :
    (w : PokeWorld) → w.now + interval_ns ≤ u64_max → Fresh w → Inv w → Inv (attempt_now w)
unfolding attempt_now admit_attempt
attempt_now-Inv w bound fresh v =
    elim (Bool-cases (ltb w.now w.runtime.next_attempt_allowed_at_ns)) [
      | inl early ↦ rw early v
      | inr allowed ↦
          let fits : sat_add w.now interval_ns ≡ w.now + interval_ns = omega arith in
          rw (allowed, fits)
            (record {
              spaced =
                  attempt_now-Spaced w.now w.runtime.next_attempt_allowed_at_ns w.attempts
                    (ground arith) v.spaced v.allows;
              allows = omega arith;
              soon = omega arith;
              awaited =
                  raise_next w.runtime.due_at_ns w.timer w.runtime.timer_pending
                    w.runtime.next_attempt_allowed_at_ns (w.now + interval_ns) fresh v.awaited;
            })
    ]

pub handle-Inv :
    (w : PokeWorld) → w.now + interval_ns ≤ u64_max → Inv w → Inv (handle_event_horizon_poke w)
unfolding handle_event_horizon_poke record_hint
handle-Inv w bound v =
    let fits : sat_add w.now interval_ns ≡ w.now + interval_ns = omega arith in
    attempt_now-Inv _ bound (inr (ap some fits)) (
      rw fits (record {
        spaced = v.spaced;
        allows = v.allows;
        soon = v.soon;
        awaited =
            hint-Awaited w.runtime.due_at_ns w.timer w.runtime.timer_pending
              w.runtime.next_attempt_allowed_at_ns w.now v.soon v.awaited;
      }))

pub later-Inv : (w : PokeWorld) (later : ℕ) → w.now ≤ later → Inv w → Inv (record w { now = later })
later-Inv w later le v = record {
  spaced = v.spaced;
  allows = v.allows;
  soon = omega (arith, v.soon);
  awaited = Awaited-later w.runtime.due_at_ns w.timer _ _ w.now later le v.awaited;
}

abbrev world : Option ℕ → Option ℕ → Bool → ℕ → List ℕ → ℕ → PokeWorld
world due timer pending next attempts now = record {
  runtime = record { due_at_ns = due; timer_pending = pending; next_attempt_allowed_at_ns = next };
  timer = timer;
  attempts = attempts;
  now = now;
}

-- A firing before the due time reschedules to it; one at or after it attempts.
pub callback-Inv :
    (due timer : Option ℕ) (pending : Bool) (next : ℕ) (attempts : List ℕ) (now : ℕ)
    → now + interval_ns ≤ u64_max
    → Inv (world due timer pending next attempts now)
    → Inv (deferred_callback (world due timer pending next attempts now))
unfolding deferred_callback deferred_timer_action
callback-Inv none none pending next attempts now bound v = record {
  spaced = v.spaced;
  allows = v.allows;
  soon = v.soon;
  awaited = refl;
}
callback-Inv none (some timer) pending next attempts now bound v = absurd v.awaited
callback-Inv (some due) none pending next attempts now bound v = absurd v.awaited
callback-Inv (some due) (some timer) pending next attempts now bound v =
    elim (Bool-cases (ltb now due)) [
      | inl early ↦ rw early (record {
        spaced = v.spaced;
        allows = v.allows;
        soon = v.soon;
        awaited = (v.awaited.0, ground arith, v.awaited.2, v.awaited.3);
      })
      | inr at_due ↦ rw at_due (
          attempt_now-Inv (world none none false next attempts now) bound (inl refl)
            (record { spaced = v.spaced; allows = v.allows; soon = v.soon; awaited = refl }))
    ]
