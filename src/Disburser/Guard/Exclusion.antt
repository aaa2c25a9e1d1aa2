-- ===== src/Disburser/Guard/Exclusion.antt =====
-- At most one guard is current at any time, whatever acquisitions, releases and drops went before.
use jupiter_faucet_suite.Common.{
  ℕ, zero, suc, ◌+◌, ◌≤◌, ◌≡◌, ◌⊎◌, inl, inr, refl, Option, none, some, List, [], ◌∷◌, arith, All,
  sum_by, get_elem?, if◌then◌else◌, unwrap_or, Option-cases, Bool-cases, ltb, option_eq_iff,
}
use jupiter_faucet_suite.Lease.Timer.{TimerLeaseGuard}
use jupiter_faucet_suite.Disburser.State.{State}
use jupiter_faucet_suite.Disburser.Guard.{is_current, acquire, release}

-- The guards that are alive in suspended calls, the state, and the clock in seconds.
pub record Holders : Type 0 where
  pub guards : List TimerLeaseGuard
  pub st : State
  pub now : ℕ

pub data Action : Type 0 where
  wait drop : ℕ → Action
  acquire_main upgrade : Action
  others : State → Action

abbrev removed : ℕ → List TimerLeaseGuard → List TimerLeaseGuard
removed i [] = []
removed zero (g ∷ gs) = gs
removed (suc i) (g ∷ gs) = g ∷ removed i gs

abbrev after_acquire : Holders → Option (TimerLeaseGuard × State) → Holders
after_acquire w none = w
after_acquire w (some (g, st)) = record w { guards = g ∷ w.guards; st = st }

abbrev after_drop : ℕ → Holders → Option TimerLeaseGuard → Holders
after_drop i w none = w
after_drop i w (some g) = record w { guards = removed i w.guards; st = (release g w.st).1 }

-- A call may wait, acquire, or end and drop its guard; an upgrade ends every call and frees the
-- lock; and the other handlers change any field of the state but the lock.
unfoldable pub step : Holders → Action → Holders
step w (Action.wait seconds) = record w { now = w.now + seconds }
step w Action.acquire_main = after_acquire w (acquire w.now w.st)
step w (Action.drop i) = after_drop i w (get_elem? w.guards i)
step w Action.upgrade = record w { guards = []; st = record w.st { main_lock_state_ts = some 0 } }
step w (Action.others st) = record w {
  st = record st { main_lock_state_ts = w.st.main_lock_state_ts };
}

unfoldable pub run : Holders → List Action → Holders
run w [] = w
run w (a ∷ rest) = run (step w a) rest

unfoldable pub current_guards : Holders → ℕ
current_guards w = sum_by (λ g. if is_current g w.now w.st then 1 else 0) w.guards

abbrev Expired : ℕ → List TimerLeaseGuard → Type 0
Expired now = All (λ g. g.lease_expires_at_ts ≤ now)

-- All guards but the one that the lock names have run out.
abbrev Exclusive : Option ℕ → ℕ → List TimerLeaseGuard → Type 0
Exclusive lock now [] = Unit
Exclusive lock now (g ∷ gs) =
    ((g.lease_expires_at_ts ≤ now) × Exclusive lock now gs)
    ⊎ ((lock ≡ some g.lease_expires_at_ts) × Expired now gs)

Expired-later :
    (now later : ℕ) (gs : List TimerLeaseGuard) → now ≤ later → Expired now gs → Expired later gs
Expired-later now later [] le e = tt
Expired-later now later (g ∷ gs) le e = (omega arith, Expired-later now later gs le e.1)

Expired-Exclusive :
    (lock : Option ℕ) (now : ℕ) (gs : List TimerLeaseGuard) → Expired now gs → Exclusive lock now gs
Expired-Exclusive lock now [] e = tt
Expired-Exclusive lock now (g ∷ gs) (x, e) = inl (x, Expired-Exclusive lock now gs e)

Exclusive-later :
    (lock : Option ℕ) (now later : ℕ) (gs : List TimerLeaseGuard)
    → now ≤ later
    → Exclusive lock now gs
    → Exclusive lock later gs
Exclusive-later lock now later [] le e = tt
Exclusive-later lock now later (g ∷ gs) le (inl (x, e)) =
    inl (omega arith, Exclusive-later lock now later gs le e)
Exclusive-later lock now later (g ∷ gs) le (inr (x, e)) = inr (x, Expired-later now later gs le e)

-- Once the lock's own expiry has passed, every guard has run out.
Exclusive-Expired :
    (lock : Option ℕ) (now : ℕ) (gs : List TimerLeaseGuard)
    → unwrap_or lock 0 ≤ now
    → Exclusive lock now gs
    → Expired now gs
Exclusive-Expired lock now [] le e = tt
Exclusive-Expired lock now (g ∷ gs) le (inl (x, e)) = (x, Exclusive-Expired lock now gs le e)
Exclusive-Expired lock now (g ∷ gs) le (inr (x, e)) =
    let bound : unwrap_or (some g.lease_expires_at_ts) 0 ≤ now = rw x at le in (bound, e)

Expired-removed :
    (now i : ℕ) (gs : List TimerLeaseGuard) → Expired now gs → Expired now (removed i gs)
Expired-removed now i [] e = tt
Expired-removed now zero (g ∷ gs) e = e.1
Expired-removed now (suc i) (g ∷ gs) e = (e.0, Expired-removed now i gs e.1)

Exclusive-removed :
    (lock : Option ℕ) (now i : ℕ) (gs : List TimerLeaseGuard)
    → Exclusive lock now gs
    → Exclusive lock now (removed i gs)
Exclusive-removed lock now i [] e = tt
Exclusive-removed lock now zero (g ∷ gs) (inl (x, e)) = e
Exclusive-removed lock now zero (g ∷ gs) (inr (x, e)) = Expired-Exclusive lock now gs e
Exclusive-removed lock now (suc i) (g ∷ gs) (inl (x, e)) =
    inl (x, Exclusive-removed lock now i gs e)
Exclusive-removed lock now (suc i) (g ∷ gs) (inr (x, e)) = inr (x, Expired-removed now i gs e)

Expired-get :
    (now i : ℕ) (gs : List TimerLeaseGuard) (g : TimerLeaseGuard)
    → get_elem? gs i ≡ some g
    → Expired now gs
    → g.lease_expires_at_ts ≤ now
Expired-get now i [] g at e = cc
Expired-get now zero (h ∷ gs) g at e = ground arith
Expired-get now (suc i) (h ∷ gs) g at e = Expired-get now i gs g at e.1

-- The guard that the lock names, once removed, leaves only guards that have run out.
holder_removed :
    (now i : ℕ) (gs : List TimerLeaseGuard) (g : TimerLeaseGuard)
    → get_elem? gs i ≡ some g
    → Exclusive (some g.lease_expires_at_ts) now gs
    → Expired now (removed i gs)
holder_removed now i [] g at e = tt
holder_removed now zero (h ∷ gs) g at (inl (x, e)) =
    Exclusive-Expired (some g.lease_expires_at_ts) now gs (ground arith) e
holder_removed now zero (h ∷ gs) g at (inr (x, e)) = e
holder_removed now (suc i) (h ∷ gs) g at (inl (x, e)) = (x, holder_removed now i gs g at e)
holder_removed now (suc i) (h ∷ gs) g at (inr (x, e)) =
    (ground (arith, Expired-get now i gs g at e), Expired-removed now i gs e)

abbrev IsExclusive : Holders → Type 0
IsExclusive w = Exclusive w.st.main_lock_state_ts w.now w.guards

acquire-IsExclusive :
    (w : Holders) → IsExclusive w → IsExclusive (after_acquire w (acquire w.now w.st))
unfolding acquire
acquire-IsExclusive w e = elim (Bool-cases (ltb w.now (unwrap_or w.st.main_lock_state_ts 0))) [
  | inl held ↦ rw held e
  | inr free ↦
      rw free
        (inr (refl, Exclusive-Expired w.st.main_lock_state_ts w.now w.guards (ground arith) e))
]

release_cases :
    (g : TimerLeaseGuard) (st : State)
    → ((release g st).1.main_lock_state_ts ≡ st.main_lock_state_ts)
      ⊎ ((st.main_lock_state_ts ≡ some g.lease_expires_at_ts)
          × ((release g st).1.main_lock_state_ts ≡ some 0))
unfolding release
release_cases g st =
    ground (arith, option_eq_iff st.main_lock_state_ts (some g.lease_expires_at_ts))

-- Dropping a guard frees the lock only if it is the one that the lock names.
drop-IsExclusive :
    (w : Holders) (i : ℕ) (g : TimerLeaseGuard)
    → get_elem? w.guards i ≡ some g
    → IsExclusive w
    → Exclusive (release g w.st).1.main_lock_state_ts w.now (removed i w.guards)
drop-IsExclusive w i g at e = elim (release_cases g w.st) [
  | inl same ↦ rw same (Exclusive-removed w.st.main_lock_state_ts w.now i w.guards e)
  | inr (names, freed) ↦
      let held : Exclusive (some g.lease_expires_at_ts) w.now w.guards = rw names at e in
      Expired-Exclusive (release g w.st).1.main_lock_state_ts w.now (removed i w.guards)
        (holder_removed w.now i w.guards g at held)
]

step-IsExclusive : (w : Holders) (a : Action) → IsExclusive w → IsExclusive (step w a)
unfolding step
step-IsExclusive w (Action.wait seconds) e =
    Exclusive-later w.st.main_lock_state_ts w.now (w.now + seconds) w.guards (omega arith) e
step-IsExclusive w Action.acquire_main e = acquire-IsExclusive w e
step-IsExclusive w (Action.drop i) e = elim (Option-cases (get_elem? w.guards i)) [
  | inl missing ↦ rw (missing) e
  | inr (g, at) ↦ rw at (drop-IsExclusive w i g at e)
]
step-IsExclusive w Action.upgrade e = tt
step-IsExclusive w (Action.others st) e = e

run-IsExclusive :
    (w : Holders) (actions : List Action) → IsExclusive w → IsExclusive (run w actions)
unfolding run
run-IsExclusive w [] e = e
run-IsExclusive w (a ∷ rest) e = run-IsExclusive (step w a) rest (step-IsExclusive w a e)

module _ (now : ℕ) (st : State) where
  abbrev count : List TimerLeaseGuard → ℕ
  count = sum_by (λ g. if is_current g now st then 1 else 0)

  count-Expired : (gs : List TimerLeaseGuard) → Expired now gs → count gs ≡ 0
  unfolding is_current
  count-Expired [] e = refl
  count-Expired (g ∷ gs) e = ground (arith, count-Expired gs e.1)

  count-Exclusive :
      (gs : List TimerLeaseGuard) → Exclusive st.main_lock_state_ts now gs → count gs ≤ 1
  unfolding is_current
  count-Exclusive [] e = omega arith
  count-Exclusive (g ∷ gs) (inl (x, e)) = ground (arith, count-Exclusive gs e)
  count-Exclusive (g ∷ gs) (inr (x, e)) = ground (arith, count-Expired gs e)

-- Whatever calls wait, acquire, finish, are dropped or are cut off by an upgrade, at most one guard
-- is current at any time, starting from any state in which no call is running.
pub one_current_guard :
    (st : State) (now : ℕ) (actions : List Action)
    → current_guards (run (record { guards = []; st = st; now = now }) actions) ≤ 1
unfolding current_guards
one_current_guard st now actions =
    let w = run (record { guards = []; st = st; now = now }) actions in
    count-Exclusive w.now w.st w.guards
      (run-IsExclusive (record { guards = []; st = st; now = now }) actions tt)
