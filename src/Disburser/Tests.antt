-- ===== src/Disburser/Tests.antt =====
-- The disburser's theorems at concrete configurations, clocks and replies.
use jupiter_faucet_suite.Common.{
  min, none, ℕ, ◌+◌, ◌*◌, ◌≤◌, ◌≡◌, refl, true, some, List, [], ◌∷◌, arith, length,
}
use jupiter_faucet_suite.Ledger.{Account}
use jupiter_faucet_suite.Disburser.State.{Config, new}
use jupiter_faucet_suite.Disburser.Store
use jupiter_faucet_suite.Disburser.Store.{
  InSync, Memory, VersionedStableState, acts, acts-InSync, restore_state_from_stable, spec_acts,
}
use jupiter_faucet_suite.Disburser.Guard.{is_current, acquire, release}
use jupiter_faucet_suite.Disburser.Guard.Exclusion.{
  Action, step, run, current_guards, one_current_guard,
}
use jupiter_faucet_suite.Disburser.Split.{compute_gross_split, secs_per_year}
use jupiter_faucet_suite.Disburser.Split.Exact.{split_exact, split_age_mono}
use jupiter_faucet_suite.Disburser.Plan.{build_memo, plan_payout_transfers}
use jupiter_faucet_suite.Disburser.Plan.Memo.{memo_injective}
use jupiter_faucet_suite.Disburser.Plan.Bounds.{plan_bounds}

abbrev account : ℕ → Account
account n = record { owner = n; subaccount = 0 }

abbrev pub cfg : Config
cfg = record {
  neuron_id = 42;
  normal_recipient = account 1;
  age_bonus_recipient_1 = account 2;
  age_bonus_recipient_2 = account 3;
  ledger_canister_id = 14;
  governance_canister_id = 15;
  rescue_controller = 16;
  autonomous_rescue_armed = some true;
  main_interval_seconds = 86400;
  rescue_interval_seconds = 86400;
}

-- Four years of age: a base of 400 and a bonus of 100, split 95 to 5.
split_at_max_age :
    compute_gross_split 500 (4 * secs_per_year)
    ≡ record { base_e8s = 400; bonus_recipient_1_e8s = 95; bonus_recipient_2_e8s = 5 }
unfolding compute_gross_split
split_at_max_age = refl

split_exact_example :
    let g = compute_gross_split 987_654_321 63_072_000 in
    g.base_e8s * (16 * 31_536_000 + min 63_072_000 (4 * 31_536_000))
    ≤ 987_654_321 * (16 * 31_536_000)
split_exact_example = (split_exact 987_654_321 63_072_000 (omega arith)).1

split_age_mono_example :
    (compute_gross_split 1_000_000 63_072_000).base_e8s ≤ (compute_gross_split 1_000_000 0).base_e8s
split_age_mono_example = (split_age_mono 1_000_000 0 63_072_000 (omega arith) (omega arith)).0

memo_injective_example : (length (build_memo 7 2) ≡ 16) × (◌≡◌ {A = ℕ} 7 7) × (◌≡◌ {A = ℕ} 2 2)
memo_injective_example =
    memo_injective 7 7 2 2 (omega arith) (omega arith) (omega arith) (omega arith) refl

plan_bounds_example :
    length
      (plan_payout_transfers 7 5_000 1_000_000 10_000 126_144_000
        (account 1)
        (account 2)
        (account 3)).1
    ≤ 3
plan_bounds_example =
    (plan_bounds 7 5_000 1_000_000 10_000 126_144_000 (account 1) (account 2) (account 3)
      (omega arith)).1

abbrev two_calls : List Action
two_calls =
    Action.acquire_main
    ∷ Action.wait 900
    ∷ Action.acquire_main
    ∷ Action.wait 10
    ∷ Action.drop 1
    ∷ []

one_current_guard_example :
    current_guards (run (record { guards = []; st = new cfg 1_000; now = 1_000 }) two_calls) ≤ 1
one_current_guard_example = one_current_guard (new cfg 1_000) 1_000 two_calls

-- The newer guard survives the drop of the older one, whose lease had run out.
newer_guard_stays :
    current_guards (run (record { guards = []; st = new cfg 1_000; now = 1_000 }) two_calls) ≡ 1
unfolding current_guards run step acquire release is_current new
newer_guard_stays = refl

-- Before the installation: no state in the heap and none in the stable cell.
abbrev blank : Memory
blank = record { heap = none; stable = VersionedStableState.uninitialized }

blank-InSync : InSync blank
unfolding restore_state_from_stable
blank-InSync = refl

-- The lock is taken, and an upgrade frees it.
abbrev life : List Store.Action
life =
    Store.Action.installs (new cfg 0)
    ∷ Store.Action.changes (λ st. record st { main_lock_state_ts = some 1 })
    ∷ Store.Action.upgrades (λ st. record st { main_lock_state_ts = some 0 })
    ∷ []

acts-InSync_example :
    InSync (acts life blank)
    × (restore_state_from_stable (acts life blank)
        ≡ spec_acts life (restore_state_from_stable blank))
acts-InSync_example = acts-InSync life blank blank-InSync
