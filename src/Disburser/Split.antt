-- ===== src/Disburser/Split.antt =====
-- The gross split of a payout (canisters/disburser/src/logic.rs). Amounts are u64, products u128;
-- `as u64` is the wrap at 2 ^ 64.
pub mod Exact
use jupiter_faucet_suite.Common.{ℕ, ◌+◌, ◌-◌, ◌*◌, ◌/◌, ◌%◌, ltb, ◌==◌, if◌then◌else◌, as_u64, min}

abbrev pub secs_per_day : ℕ
secs_per_day = 86_400

abbrev pub secs_per_year : ℕ
secs_per_year = 365 * secs_per_day

abbrev pub max_age_for_bonus_secs : ℕ
max_age_for_bonus_secs = 4 * secs_per_year

abbrev pub bonus_recipient_1_pct : ℕ
bonus_recipient_1_pct = 95

pub record GrossSplit : Type 0 where
  pub base_e8s : ℕ
  pub bonus_recipient_1_e8s : ℕ
  pub bonus_recipient_2_e8s : ℕ

-- The numerator and the denominator of the age multiplier, 1 + min(age, 4 years) / 16 years.
unfoldable pub age_multiplier_fraction : ℕ → ℕ × ℕ
age_multiplier_fraction age_seconds =
    (16 * secs_per_year + min age_seconds max_age_for_bonus_secs, 16 * secs_per_year)

-- `u128::div_ceil`.
abbrev pub div_ceil : ℕ → ℕ → ℕ
div_ceil a b = if ltb 0 (a % b) then a / b + 1 else a / b

unfoldable pub compute_gross_split : ℕ → ℕ → GrossSplit
unfolding age_multiplier_fraction
compute_gross_split total_e8s age_seconds =
    if total_e8s == 0
    then record { base_e8s = 0; bonus_recipient_1_e8s = 0; bonus_recipient_2_e8s = 0 }
    else (let fraction = age_multiplier_fraction age_seconds in
        let base = as_u64 (total_e8s * fraction.1 / fraction.0) in
        let bonus = total_e8s - base in
        let bonus1 = as_u64 (div_ceil (bonus * bonus_recipient_1_pct) 100) in
        record {
          base_e8s = base;
          bonus_recipient_1_e8s = bonus1;
          bonus_recipient_2_e8s = bonus - bonus1;
        })
