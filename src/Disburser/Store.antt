-- ===== src/Disburser/Store.antt =====
-- The heap copy and the stable copy of the disburser's state (canisters/disburser/src/state.rs and
-- lib.rs). Outside tests every change is persisted at once; a trap undoes its message, so a change
-- without a state changes nothing. The encoding of the stable cell is outside the repository.
use jupiter_faucet_suite.Common.{◌≡◌, refl, ap, ◌∙◌, Option, none, some, List, [], ◌∷◌}
use jupiter_faucet_suite.Disburser.State.{State}

pub data VersionedStableState : Type 0 where
  uninitialized : VersionedStableState
  v1 : State → VersionedStableState

pub record Memory : Type 0 where
  pub heap : Option State
  pub stable : VersionedStableState

unfoldable pub persist_snapshot : State → Memory → Memory
persist_snapshot st m = record m { stable = VersionedStableState.v1 st }

unfoldable pub set_state : State → Memory → Memory
set_state st m = record (persist_snapshot st m) { heap = some st }

unfoldable pub restore_state_from_stable : Memory → Option State
restore_state_from_stable m = elim m.stable [
  | VersionedStableState.uninitialized ↦ none
  | VersionedStableState.v1 st ↦ some st
]

-- `with_state_mut` with a change of the state.
unfoldable pub with_state_mut : (State → State) → Memory → Memory
with_state_mut change m = elim m.heap [
  | none ↦ m
  | some st ↦ persist_snapshot (change st) (record m { heap = some (change st) })
]

-- An upgrade empties the heap; `post_upgrade` restores the state and applies its arguments, which
-- `change` stands for. Without a stable state it traps and the old memory stays.
unfoldable pub post_upgrade : (State → State) → Memory → Memory
post_upgrade change m = elim (restore_state_from_stable m) [
  | none ↦ m
  | some st ↦ set_state (change st) (record m { heap = none })
]

-- What the canister does to its state.
pub data Action : Type 0 where
  installs : State → Action
  changes upgrades : (State → State) → Action

unfoldable pub act : Action → Memory → Memory
act (Action.installs st) m = set_state st m
act (Action.changes change) m = with_state_mut change m
act (Action.upgrades change) m = post_upgrade change m

unfoldable pub acts : List Action → Memory → Memory
acts [] m = m
acts (a ∷ actions) m = acts actions (act a m)

-- The same on a single state, with no second copy and no upgrade that could lose it.
abbrev spec_change : (State → State) → Option State → Option State
spec_change change none = none
spec_change change (some st) = some (change st)

pub spec_act : Action → Option State → Option State
spec_act (Action.installs st) s = some st
spec_act (Action.changes change) s = spec_change change s
spec_act (Action.upgrades change) s = spec_change change s

pub spec_acts : List Action → Option State → Option State
spec_acts [] s = s
spec_acts (a ∷ actions) s = spec_acts actions (spec_act a s)

-- The heap holds what the stable cell holds.
abbrev pub InSync : Memory → Type 0
InSync m = m.heap ≡ restore_state_from_stable m

changes-InSync :
    (change : State → State) (h : Option State) (v : VersionedStableState)
    → InSync (record { heap = h; stable = v })
    → InSync (with_state_mut change (record { heap = h; stable = v }))
      × (restore_state_from_stable (with_state_mut change (record { heap = h; stable = v }))
          ≡ spec_change change (restore_state_from_stable (record { heap = h; stable = v })))
unfolding with_state_mut restore_state_from_stable persist_snapshot
changes-InSync change none VersionedStableState.uninitialized i = (i, refl)
changes-InSync change (some st) VersionedStableState.uninitialized i = absurd cc
changes-InSync change none (VersionedStableState.v1 t) i = absurd cc
changes-InSync change (some st) (VersionedStableState.v1 t) i = (refl, ap (spec_change change) i)

upgrades-InSync :
    (change : State → State) (h : Option State) (v : VersionedStableState)
    → InSync (record { heap = h; stable = v })
    → InSync (post_upgrade change (record { heap = h; stable = v }))
      × (restore_state_from_stable (post_upgrade change (record { heap = h; stable = v }))
          ≡ spec_change change (restore_state_from_stable (record { heap = h; stable = v })))
unfolding post_upgrade restore_state_from_stable persist_snapshot set_state
upgrades-InSync change h VersionedStableState.uninitialized i = (i, refl)
upgrades-InSync change h (VersionedStableState.v1 t) i = (refl, refl)

act-InSync :
    (a : Action) (m : Memory)
    → InSync m
    → InSync (act a m)
      × (restore_state_from_stable (act a m) ≡ spec_act a (restore_state_from_stable m))
unfolding act spec_act restore_state_from_stable set_state persist_snapshot
act-InSync (Action.installs st) m i = (refl, refl)
act-InSync (Action.changes change) m i = changes-InSync change m.heap m.stable i
act-InSync (Action.upgrades change) m i = upgrades-InSync change m.heap m.stable i

-- From a memory whose copies agree, any sequence of installations, changes and upgrades leaves them
-- agreeing, on the state that the same sequence makes of a single copy: no upgrade loses or brings
-- back a change.
pub acts-InSync :
    (actions : List Action) (m : Memory)
    → InSync m
    → InSync (acts actions m)
      × (restore_state_from_stable (acts actions m)
          ≡ spec_acts actions (restore_state_from_stable m))
unfolding acts spec_acts
acts-InSync [] m i = (i, refl)
acts-InSync (a ∷ actions) m i =
    let k = act-InSync a m i in
    let r = acts-InSync actions (act a m) k.0 in (r.0, r.1 ∙ ap (spec_acts actions) k.1)
