-- ===== src/Disburser/Payout/Tests.antt =====
-- One payout of 0.01 ICP at concrete times: sent, retried after a lost reply, and cut off by its lease.
use jupiter_faucet_suite.Common.{
  ℕ, ◌≡◌, inl, inr, refl, true, false, none, some, List, [], ◌∷◌, arith, sat_add, be_bytes,
  ℕ_discrete,
}
use jupiter_faucet_suite.Ledger.{Account, TransferArg, TransferReply}
use jupiter_faucet_suite.Disburser.State.{Config, State, PayoutPlan, TransferStatus, plan_eq}
use jupiter_faucet_suite.Disburser.Guard.{is_current}
use jupiter_faucet_suite.Disburser.Split.{compute_gross_split}
use jupiter_faucet_suite.Disburser.Plan.{build_memo, plan_payout_transfers}
use jupiter_faucet_suite.Disburser.Payout.{
  Call, Phase, balance, fee, transfer, start, resume, build_plan, on_balance, on_fee, on_transfer,
  loop_head, install_plan, first_pending, payout_generation_matches,
}
use jupiter_faucet_suite.Disburser.Payout.Drain.{Answers, drive, settled}
use jupiter_faucet_suite.Disburser.Payout.Completion.{payout_completes}
use jupiter_faucet_suite.Disburser.Payout.Fencing.{IsFenced, resume-IsFenced}
use jupiter_faucet_suite.Disburser.Payout.Stale.{OnlyRecords, stale_call-OnlyRecords}
use jupiter_faucet_suite.Disburser.Payout.Identity.{World, Event, resumes, step, run}
use jupiter_faucet_suite.Disburser.Payout.Identity.Unique.{one_memo_one_transfer}

abbrev account : ℕ → Account
account n = record { owner = n; subaccount = 0 }

abbrev cfg : Config
cfg = record {
  neuron_id = 42;
  normal_recipient = account 1;
  age_bonus_recipient_1 = account 2;
  age_bonus_recipient_2 = account 3;
  ledger_canister_id = 14;
  governance_canister_id = 15;
  rescue_controller = 16;
  autonomous_rescue_armed = none;
  main_interval_seconds = 86400;
  rescue_interval_seconds = 86400;
}

abbrev call : Call
call = record {
  cfg = cfg;
  now_nanos = 1_000_000_000_000;
  now_secs = 1_000;
  guard = record { active = true; lease_expires_at_ts = 1_900 };
}

-- The main tick holds the lock until second 1900.
abbrev idle : State
idle = record {
  config = cfg;
  prev_age_seconds = 0;
  last_successful_transfer_ts = none;
  last_rescue_check_ts = 0;
  rescue_triggered = false;
  autonomous_rescue_armed_since_ts = none;
  forced_rescue_reason = none;
  main_lock_state_ts = some 1_900;
  payout_nonce = 1;
  payout_plan = none;
  last_main_run_ts = 0;
}

abbrev ledger : Answers
ledger = record {
  balance_e8s = 1_000_000;
  fee_e8s = 10_000;
  transfer = λ arg. TransferReply.block 5;
}

abbrev plan : PayoutPlan
plan = record {
  id = 1;
  fee_e8s = 10_000;
  created_at_base_nanos = 1_000_000_000_000;
  transfers =
      record {
        to = account 1;
        gross_share_e8s = 1_000_000;
        amount_e8s = 990_000;
        created_at_time_nanos = 1_000_000_000_000;
        memo = 0 ∷ 0 ∷ 0 ∷ 0 ∷ 0 ∷ 0 ∷ 0 ∷ 1 ∷ 0 ∷ 0 ∷ 0 ∷ 0 ∷ 0 ∷ 0 ∷ 0 ∷ 0 ∷ [];
        status = TransferStatus.pending;
      }
      ∷ [];
}

abbrev sent_arg : TransferArg
sent_arg = record {
  from_subaccount = none;
  to = account 1;
  fee = some 10_000;
  created_at_time = some 1_000_000_000_000;
  memo = some (0 ∷ 0 ∷ 0 ∷ 0 ∷ 0 ∷ 0 ∷ 0 ∷ 1 ∷ 0 ∷ 0 ∷ 0 ∷ 0 ∷ 0 ∷ 0 ∷ 0 ∷ 0 ∷ []);
  amount = 990_000;
}

abbrev underway : State
underway = record idle { payout_nonce = 2; payout_plan = some plan }

first_plan : build_plan call 1 1_000_000 10_000 0 ≡ plan
unfolding build_plan plan_payout_transfers compute_gross_split build_memo be_bytes
first_plan = refl

payout_completes_example : drive 5 ledger (λ k. 1_000) call (start call 1_000 idle) ≡ (
  settled call (build_plan call 1 1_000_000 10_000 0) (record idle { payout_nonce = sat_add 1 1 }),
  Phase.finished true,
)
payout_completes_example =
    payout_completes call ledger (λ k. 1_000) 1_000 idle (λ arg. (5, inl refl)) (λ k. omega arith)
      (refl, omega arith, refl) refl (omega arith)

resume-IsFenced_example :
    IsFenced call 1_000
      (resume call 1_000 (fee {nonce = 1} {amount = 1_000_000} {age = 0} (some 10_000)) idle)
resume-IsFenced_example =
    resume-IsFenced call 1_000 (fee {nonce = 1} {amount = 1_000_000} {age = 0} (some 10_000)) idle

stale_call-OnlyRecords_example :
    OnlyRecords call
      (transfer {plan = plan} {i = 0} {arg = sent_arg} (TransferReply.block 5))
      underway
      (resume call 1_900
        (transfer {plan = plan} {i = 0} {arg = sent_arg} (TransferReply.block 5))
        underway)
unfolding is_current
stale_call-OnlyRecords_example =
    stale_call-OnlyRecords call 1_900
      (transfer {plan = plan} {i = 0} {arg = sent_arg} (TransferReply.block 5)) underway refl

-- The plan goes in and its transfer is sent; the reply is lost; a later call sends it again.
abbrev retried : List Event
retried =
    resumes call 1_000 (Phase.awaiting_fee 1 1_000_000 0) (fee (some 10_000))
    ∷ resumes call 1_001 (Phase.awaiting_transfer plan 0 sent_arg)
        (transfer TransferReply.call_failed)
    ∷ resumes call 1_002 (Phase.awaiting_balance 2 (some plan) 0) (balance (some 1_000_000))
    ∷ []

abbrev fresh_world : World
fresh_world = record { st = record idle { payout_plan = none }; dispatched = []; installed = [] }

sent_twice : (run fresh_world retried).dispatched ≡ sent_arg ∷ sent_arg ∷ []
unfolding run step resume on_balance on_fee on_transfer loop_head is_current install_plan
    first_pending payout_generation_matches build_plan plan_payout_transfers compute_gross_split
    build_memo be_bytes plan_eq ℕ_discrete
sent_twice = refl

retried_nonce : (run fresh_world retried).st.payout_nonce ≡ 2
unfolding run step resume on_balance on_fee on_transfer loop_head is_current install_plan
    first_pending payout_generation_matches build_plan plan_payout_transfers compute_gross_split
    build_memo be_bytes plan_eq ℕ_discrete
retried_nonce = refl

one_memo_one_transfer_example : sent_arg ≡ sent_arg
one_memo_one_transfer_example =
    one_memo_one_transfer idle retried sent_arg sent_arg (omega arith)
      (rw retried_nonce (omega arith)) (rw sent_twice (inl refl)) (rw sent_twice (inr (inl refl)))
      refl
