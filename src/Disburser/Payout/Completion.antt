-- ===== src/Disburser/Payout/Completion.antt =====
-- A payout that meets a cooperating ledger ends, from its first message to its last.
use jupiter_faucet_suite.Common.{
  ℕ, ◌≤◌, ◌<◌, ◌≡◌, ◌≢◌, refl, ap, ◌∙◌, true, false, none, some, List, [], ◌∷◌, map, arith, ◌==◌,
  option_eq_iff, sat_add, length,
}
use jupiter_faucet_suite.Ledger.{TransferArg}
use jupiter_faucet_suite.Disburser.State.{State, plan_eq_iff}
use jupiter_faucet_suite.Disburser.Guard.{is_current}
use jupiter_faucet_suite.Disburser.Plan.{Planned}
use jupiter_faucet_suite.Disburser.Plan.Bounds.{plan-Sequenced}
use jupiter_faucet_suite.Disburser.Payout.{
  Call, Phase, start, on_balance, on_fee, loop_head, build_plan, to_transfer, install_plan,
  payout_generation_matches,
}
use jupiter_faucet_suite.Disburser.Payout.Drain.{
  Answers, Accepts, drive, drain, settled, pending_count, lease,
}

pending_count-map_transfer : (ps : List Planned) → pending_count (map to_transfer ps) ≡ length ps
pending_count-map_transfer [] = refl
pending_count-map_transfer (p ∷ ps) = omega (arith, pending_count-map_transfer ps)

-- A fresh plan has at most three pending transfers.
build_plan-pending :
    (c : Call) (id amount fee_e8s age : ℕ)
    → pending_count (build_plan c id amount fee_e8s age).transfers ≤ 3
unfolding build_plan
build_plan-pending c id amount fee_e8s age = omega (
  arith,
  pending_count-map_transfer (_),
  (plan-Sequenced id c.now_nanos amount fee_e8s age c.cfg.normal_recipient
      c.cfg.age_bonus_recipient_1 c.cfg.age_bonus_recipient_2).1,
)

-- The guard is active, its lease has not run out, and the lock still names it.
abbrev pub Holds : Call → ℕ → State → Type 0
Holds c now st =
    (c.guard.active ≡ true) × (now < lease c) × (st.main_lock_state_ts ≡ some (lease c))

Holds-current :
    (c : Call) (now : ℕ) (st : State) → Holds c now st → is_current c.guard now st ≡ true
unfolding is_current
Holds-current c now st (active, early, held) =
    ground (arith, option_eq_iff st.main_lock_state_ts (some (lease c)))

module _ (c : Call) (now : ℕ) (st : State) (h : Holds c now st) (free : st.payout_plan ≡ none) where
  same_generation : payout_generation_matches st.payout_nonce none st ≡ true
  unfolding payout_generation_matches
  same_generation = ground (arith, plan_eq_iff st.payout_plan none)

  start_step :
      start c now st ≡ (st, Phase.awaiting_balance st.payout_nonce none st.prev_age_seconds)
  unfolding start
  start_step =
      rw (Holds-current c now st h)
        (ap (λ p. (st, Phase.awaiting_balance st.payout_nonce p st.prev_age_seconds)) free)

  balance_step :
      (amount age : ℕ)
      → amount ≢ 0
      → on_balance c now (some amount) st.payout_nonce none age st
        ≡ (st, Phase.awaiting_fee st.payout_nonce amount age)
  unfolding on_balance
  balance_step amount age funds =
      let some_funds : (amount == 0) ≡ false = ground arith in
      rw (Holds-current c now st h, same_generation, some_funds)

  fee_step :
      (amount fee_e8s age : ℕ)
      → on_fee c now (some fee_e8s) st.payout_nonce amount age st
        ≡ loop_head c now (record st {
          payout_nonce = sat_add st.payout_nonce 1;
          payout_plan = some (build_plan c st.payout_nonce amount fee_e8s age);
        })
  unfolding on_fee install_plan
  fee_step amount fee_e8s age =
      let same_nonce : (st.payout_nonce == st.payout_nonce) ≡ true = ground arith in
      rw (Holds-current c now st h, same_generation, same_nonce, free)

-- From an idle canister with funds: a call that holds the lock, whose messages all come before its
-- lease runs out, and whose ledger answers and takes every transfer, ends within five messages. It
-- reports success, the plan it made from the reported balance and fee is gone, the nonce has moved
-- by one, and the success time is set if the plan had a transfer; nothing else has changed.
pub payout_completes :
    (c : Call) (ledger : Answers) (clock : ℕ → ℕ) (now : ℕ) (st : State)
    → ((arg : TransferArg) → Accepts (ledger.transfer arg))
    → ((k : ℕ) → clock k < lease c)
    → Holds c now st
    → st.payout_plan ≡ none
    → ledger.balance_e8s ≢ 0
    → let plan =
        build_plan c st.payout_nonce ledger.balance_e8s ledger.fee_e8s st.prev_age_seconds in
      drive 5 ledger clock c (start c now st) ≡ (
        settled c plan (record st { payout_nonce = sat_add st.payout_nonce 1 }),
        Phase.finished true,
      )
unfolding drive
payout_completes c ledger clock now st accepts early h free funds =
    let plan = build_plan c st.payout_nonce ledger.balance_e8s ledger.fee_e8s st.prev_age_seconds in
    let st' : State = record st {
      payout_nonce = sat_add st.payout_nonce 1;
      payout_plan = some plan;
    } in
    let drained = drain c ledger clock accepts h.0 early 3 (clock 3) st' plan (early 3) h.2 refl (
      build_plan-pending c st.payout_nonce ledger.balance_e8s ledger.fee_e8s st.prev_age_seconds) in
    ap (drive 5 ledger clock c) (start_step c now st h free)
    ∙ ap (drive 4 ledger clock c) (
        balance_step c (clock 4) st (h.0, early 4, h.2) free ledger.balance_e8s st.prev_age_seconds
          funds)
    ∙ ap (drive 3 ledger clock c) (
        fee_step c (clock 3) st (h.0, early 3, h.2) free ledger.balance_e8s ledger.fee_e8s
          st.prev_age_seconds)
    ∙ drained
