-- ===== src/Disburser/Lifecycle/Narrowing.antt =====
-- Clearing a forced rescue at an upgrade gives control back (canisters/disburser/src/lib.rs and
-- scheduler/rescue.rs).
use jupiter_faucet_suite.Common.{
  is_none, is_none, ℕ, ◌≡◌, Bool, true, Option, none, some, [], ◌∷◌, if◌then◌else◌,
}
use jupiter_faucet_suite.Ledger.{Principal}
use jupiter_faucet_suite.Disburser.State.{State}
use jupiter_faucet_suite.Disburser.Rescue.{rescue_reply, rescue_request}
use jupiter_faucet_suite.Disburser.Rescue.Controllers.{armed}
use jupiter_faucet_suite.Disburser.Lifecycle.{clear_forced}

module _ (text_le : Principal → Principal → Bool) (self_id : Principal) (later again : ℕ) where
  -- The immediate rescue tick is scheduled exactly for an armed canister; a tick on this state at the
  -- later time asks for the canister as the only controller; and a tick after a success of that
  -- request asks for nothing.
  abbrev pub Narrows : Option (State × Bool) → Type 0
  Narrows none = Unit
  Narrows (some (st, reconcile)) =
      (reconcile ≡ armed st)
      × ((rescue_request text_le later self_id st).1
          ≡ (if armed st then some (self_id ∷ []) else none))
      × ((rescue_request text_le again self_id
            (rescue_reply later st.config.rescue_controller (self_id ∷ []) true st)).1
          ≡ none)

  abbrev upgraded : Bool → ℕ → State → Option (State × Bool)
  upgraded clear now st = some (
    record (clear_forced clear now st).0 { main_lock_state_ts = some 0 },
    (clear_forced clear now st).1,
  )
