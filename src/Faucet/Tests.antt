-- ===== src/Faucet/Tests.antt =====
-- The faucet's theorems at concrete rounds.
use jupiter_faucet_suite.Common.{ℕ, ◌≤◌, ◌≡◌, refl, some, List, [], ◌∷◌, arith, sum_by}
use jupiter_faucet_suite.Faucet.Shares.{
  compute_raw_share_e8s, compute_weighted_amount_e8s, commitment_amount_for_payout_e8s,
}
use jupiter_faucet_suite.Faucet.Shares.Recognition.{AtMost, recognition_right}
use jupiter_faucet_suite.Faucet.Shares.Weight.{weighted_amount_exact}
use jupiter_faucet_suite.Faucet.Shares.Pot.{shares_within_pot}

abbrev amounts : List ℕ
amounts = 500_000_000 ∷ 300_000_000 ∷ 100_000_001 ∷ []

shares_within_pot_example :
    sum_by (λ a. compute_raw_share_e8s a 700_000_000 900_000_001) amounts ≤ 700_000_000
shares_within_pot_example =
    (shares_within_pot amounts 700_000_000 900_000_001 (omega arith) (omega arith) (omega arith)
      (omega arith)).0

third_share : compute_raw_share_e8s 100_000_001 700_000_000 900_000_001 ≡ 77_777_778
unfolding compute_raw_share_e8s
third_share = refl

weighted_amount_exact_example :
    compute_weighted_amount_e8s 1_000 100 200 150 ≤ compute_weighted_amount_e8s 1_000 100 200 120
weighted_amount_exact_example =
    (weighted_amount_exact 1_000 100 200 120 150 (omega arith) (omega arith) (omega arith)).1

recognition_right_example :
    AtMost
      (commitment_amount_for_payout_e8s 1_000 7 (some 150) (some 100) (some 9) 200 0)
      (commitment_amount_for_payout_e8s 1_000 7 (some 120) (some 100) (some 9) 200 0)
recognition_right_example =
    (recognition_right 1_000 7 200 0 120 150 (some 100) (some 9) (omega arith) (omega arith)
      (omega arith)).1
