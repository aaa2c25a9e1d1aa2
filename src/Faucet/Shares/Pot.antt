-- ===== src/Faucet/Shares/Pot.antt =====
-- The shares of a round never exceed its pot.
use jupiter_faucet_suite.Common.{
  All, ℕ, ◌+◌, ◌*◌, ◌/◌, ◌≤◌, ◌<◌, ◌≡◌, inl, inr, false, List, [], ◌∷◌, arith, ◌==◌, ◌||◌, sum_by,
  min, sat_mul128, u64_max, Bool-cases, div_floor, words_product,
}
use jupiter_faucet_suite.Faucet.Shares.{compute_raw_share_e8s}

share_times_denom :
    (amount pot denom : ℕ)
    → 0 < denom
    → compute_raw_share_e8s amount pot denom * denom ≤ amount * pot
unfolding compute_raw_share_e8s
share_times_denom amount pot denom positive = elim (Bool-cases (pot == 0 || denom == 0)) [
  | inl trivial ↦ rw trivial (omega arith)
  | inr solid ↦ rw solid (grind (arith, div_floor (sat_mul128 amount pot) denom positive))
]

shares_times_denom :
    (amounts : List ℕ) (pot denom : ℕ)
    → 0 < denom
    → sum_by (λ a. compute_raw_share_e8s a pot denom) amounts * denom
      ≤ sum_by (λ a. a) amounts * pot
shares_times_denom [] pot denom positive = omega arith
shares_times_denom (a ∷ amounts) pot denom positive =
    omega
      (arith, share_times_denom a pot denom positive, shares_times_denom amounts pot denom positive)

share_exact :
    (amount pot denom : ℕ)
    → amount ≤ denom
    → 0 < denom
    → denom ≤ u64_max
    → pot ≤ u64_max
    → amount * pot < (compute_raw_share_e8s amount pot denom + 1) * denom
unfolding compute_raw_share_e8s
share_exact amount pot denom le positive hd hp = elim (Bool-cases (pot == 0)) [
  | inl empty ↦ let none : pot ≡ 0 = ground arith in rw none (omega arith)
  | inr funded ↦
      let solid : denom == 0 ≡ false = ground arith in
      let fits : sat_mul128 amount pot ≡ amount * pot =
        omega (arith, words_product amount pot (omega arith) hp) in
      let bounded : amount * pot / denom ≤ pot =
        grind (arith, div_floor (amount * pot) denom positive) in
      let small : min (amount * pot / denom) u64_max ≡ amount * pot / denom = omega arith in
      rw (funded, solid, fits, small) (div_floor (amount * pot) denom positive).1
]

abbrev pub IsFloor : ℕ → ℕ → ℕ → Type 0
IsFloor pot denom a =
    (compute_raw_share_e8s a pot denom * denom ≤ a * pot)
    × (a * pot < (compute_raw_share_e8s a pot denom + 1) * denom)

each-IsFloor :
    (amounts : List ℕ) (pot denom : ℕ)
    → 0 < denom
    → sum_by (λ a. a) amounts ≤ denom
    → denom ≤ u64_max
    → pot ≤ u64_max
    → All (IsFloor pot denom) amounts
each-IsFloor [] pot denom positive covered hd hp = tt
each-IsFloor (a ∷ amounts) pot denom positive covered hd hp = (
  (share_times_denom a pot denom positive, share_exact a pot denom (omega arith) positive hd hp),
  each-IsFloor amounts pot denom positive (omega arith) hd hp,
)

-- For a round whose denominator is at least the sum of the amounts that count in it: each share is
-- amount * pot / denominator, rounded down, and all of them together take no more than the pot.
pub shares_within_pot :
    (amounts : List ℕ) (pot denom : ℕ)
    → 0 < denom
    → sum_by (λ a. a) amounts ≤ denom
    → denom ≤ u64_max
    → pot ≤ u64_max
    → (sum_by (λ a. compute_raw_share_e8s a pot denom) amounts ≤ pot)
      × All (IsFloor pot denom) amounts
shares_within_pot amounts pot denom positive covered hd hp = (
  grind (arith, shares_times_denom amounts pot denom positive),
  each-IsFloor amounts pot denom positive covered hd hp,
)
