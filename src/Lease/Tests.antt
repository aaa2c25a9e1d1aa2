-- ===== src/Lease/Tests.antt =====
-- The fenced lease at concrete clocks.
use jupiter_faucet_suite.Common.{arith, true, refl, some, false, [], ◌∷◌, All}
use jupiter_faucet_suite.Lease.Fenced.{FencedTimerLeaseGuard, acquire}
use jupiter_faucet_suite.Lease.Fenced.Exclusion.{
  Cells, History, start, acquired, owner_is_newest, NotOwner,
}

abbrev cells : Cells
cells = record { lock = some 0; generation = 7 }

abbrev early_guard : FencedTimerLeaseGuard
early_guard = record { active = true; lease_expires_at_ts = 40; generation = 8 }

abbrev late_guard : FencedTimerLeaseGuard
late_guard = record { active = true; lease_expires_at_ts = 70; generation = 9 }

expired_owner : History (record { lock = some 70; generation = 9 }) (late_guard ∷ early_guard ∷ [])
unfolding acquire
expired_owner =
    acquired 40 30 false late_guard
      (acquired 10 30 false early_guard (start cells (omega arith)) refl) refl

owner_is_newest_example : All (NotOwner (some 70) 9) (early_guard ∷ [])
owner_is_newest_example = (owner_is_newest expired_owner (some 70)).0
