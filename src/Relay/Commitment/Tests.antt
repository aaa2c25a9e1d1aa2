-- ===== src/Relay/Commitment/Tests.antt =====
-- The relay's commitment for a concrete principal.
use jupiter_faucet_suite.Common.{ℕ, ◌+◌, ◌≡◌, refl, some, List, [], ◌∷◌, length, arith}
use jupiter_faucet_suite.Memo.{Principals, with_groups}
use jupiter_faucet_suite.Relay.Commitment.{
  FaucetCommitmentPlan, PlanOrSkip, build_faucet_commitment_plan, without_dashes,
}
use jupiter_faucet_suite.Relay.Commitment.Readable.{
  commitment_is_read, read_by_faucet, relay_target,
}

-- rrkah-fqaaa-aaaaa-aaaaq-cai
abbrev relay_text : List ℕ
relay_text =
    114 ∷ 114 ∷ 107 ∷ 97 ∷ 104 ∷ 45 ∷ 102 ∷ 113 ∷ 97 ∷ 97 ∷ 97 ∷ 45 ∷ 97 ∷ 97 ∷ 97 ∷ 97 ∷ 97 ∷ 45
    ∷ 97 ∷ 97 ∷ 97 ∷ 97 ∷ 113 ∷ 45 ∷ 99 ∷ 97 ∷ 105 ∷ []

abbrev principals : Principals
principals = record {
  from_text = λ t. some 9;
  anonymous = 0;
  management_canister = 1;
  event_horizon = 2;
}

text_length : length (without_dashes relay_text) ≡ 23
unfolding without_dashes
text_length = refl

text_groups : with_groups 0 (without_dashes relay_text) ≡ relay_text
unfolding without_dashes with_groups
text_groups = refl

commitment_is_read_example :
    (plan : FaucetCommitmentPlan) × (build_faucet_commitment_plan 9 relay_text 5 77 500_000_000
        10_000
      ≡ PlanOrSkip.planned plan)
    × (plan.amount_e8s + 10_000 ≡ 500_000_000)
    × (plan.source_account ≡ record { owner = 9; subaccount = 1 })
    × (read_by_faucet principals 100_000_000 plan ≡ relay_target 9)
commitment_is_read_example =
    commitment_is_read principals 9 relay_text 5 77 500_000_000 10_000 100_000_000 refl text_length
      text_groups refl refl refl (omega arith) (omega arith)
