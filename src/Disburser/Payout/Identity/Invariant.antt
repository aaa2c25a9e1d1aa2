-- ===== src/Disburser/Payout/Identity/Invariant.antt =====
-- The invariant of the persisted plans: ids that fall, numbered transfers, and a current plan that
-- is one of them but for the transfers already sent.
use jupiter_faucet_suite.Common.{
  ℕ, ◌≤◌, ◌<◌, ◌≡◌, inl, inr, refl, Option, none, some, List, arith, get_elem?, All, u64_max,
  sat_add,
}
use jupiter_faucet_suite.Ledger.{TransferArg}
use jupiter_faucet_suite.Disburser.State.{State, PayoutPlan, PlannedTransfer}
use jupiter_faucet_suite.Disburser.Payout.{transfer_arg}
use jupiter_faucet_suite.Disburser.Payout.Effect.{Effect, kept, cleared, marked, installed}
use jupiter_faucet_suite.Disburser.Payout.Identity.{installed_by}
use jupiter_faucet_suite.Disburser.Payout.Identity.Plans.{
  reset, reset-sent_at, IsNumbered, reset-build_plan, build_plan-IsNumbered, build_plan-id, In,
  Descending, Descending-mono,
}

-- The argument is one of a plan that was installed.
abbrev pub Known : List PayoutPlan → TransferArg → Type 0
Known plans arg =
    (p : PayoutPlan) × (j : ℕ) × (t : PlannedTransfer) × In p plans
    × (get_elem? p.transfers j ≡ some t)
    × (arg ≡ transfer_arg p t)

abbrev pub Current : Option PayoutPlan → List PayoutPlan → Type 0
Current none plans = Unit
Current (some p) plans = In (reset p) plans

pub record PlansInv (nonce : ℕ) (plan : Option PayoutPlan) (plans : List PayoutPlan) : Type 0 where
  pub descending : Descending nonce plans
  pub numbered : All IsNumbered plans
  pub current : Current plan plans

installed_by-none : (o : Option PayoutPlan) (ps : List PayoutPlan) → installed_by o none ps ≡ ps
installed_by-none none ps = refl
installed_by-none (some p) ps = refl

installed_by_self : (o : Option PayoutPlan) (ps : List PayoutPlan) → installed_by o o ps ≡ ps
installed_by_self none ps = refl
installed_by_self (some p) ps = refl

pub In-installed_by :
    (o o' : Option PayoutPlan) (ps : List PayoutPlan) (p : PayoutPlan)
    → In p ps
    → In p (installed_by o o' ps)
In-installed_by none none ps p m = m
In-installed_by none (some q) ps p m = inr m
In-installed_by (some q) o' ps p m = m

-- The plans' part of the invariant, over an effect on the nonce and the plan.
pub Effect-PlansInv :
    (st st' : State) (ps : List PayoutPlan)
    → st.payout_nonce < u64_max
    → Effect st st'
    → PlansInv st.payout_nonce st.payout_plan ps
    → PlansInv st'.payout_nonce st'.payout_plan (installed_by st.payout_plan st'.payout_plan ps)
Effect-PlansInv st st' ps below (kept n p) v = rw (n, p, installed_by_self st.payout_plan ps) v
Effect-PlansInv st st' ps below (cleared n p) v =
    rw (n, p, installed_by-none st.payout_plan ps)
      (record { descending = v.descending; numbered = v.numbered; current = tt })
Effect-PlansInv st st' ps below (marked plan block i n there p) v =
    let known : In (reset plan) ps = rw there at v.current in
    rw (n, p, there)
      (record {
        descending = v.descending;
        numbered = v.numbered;
        current = rw (reset-sent_at block i plan) known;
      })
Effect-PlansInv st st' ps below (installed c amount fee_e8s age free n (inl p)) v =
    let id = build_plan-id c st.payout_nonce amount fee_e8s age in
    rw (n, p, free)
      (record {
        descending = (omega (arith, id), rw id v.descending);
        numbered = (build_plan-IsNumbered c st.payout_nonce amount fee_e8s age, v.numbered);
        current = inl (reset-build_plan c st.payout_nonce amount fee_e8s age);
      })
Effect-PlansInv st st' ps below (installed c amount fee_e8s age free n (inr p)) v =
    rw (n, p, free)
      (record {
        descending =
            Descending-mono st.payout_nonce (sat_add st.payout_nonce 1) ps (omega arith)
              v.descending;
        numbered = v.numbered;
        current = tt;
      })

pub Effect-nonce_le :
    (st st' : State)
    → Effect st st'
    → st.payout_nonce ≤ u64_max
    → st.payout_nonce ≤ st'.payout_nonce
Effect-nonce_le st st' (kept n p) h = omega arith
Effect-nonce_le st st' (cleared n p) h = omega arith
Effect-nonce_le st st' (marked plan block i n there p) h = omega arith
Effect-nonce_le st st' (installed c amount fee_e8s age free n p) h = omega arith

pub Effect-nonce_bound :
    (st st' : State) → Effect st st' → st.payout_nonce ≤ u64_max → st'.payout_nonce ≤ u64_max
Effect-nonce_bound st st' (kept n p) h = omega arith
Effect-nonce_bound st st' (cleared n p) h = omega arith
Effect-nonce_bound st st' (marked plan block i n there p) h = omega arith
Effect-nonce_bound st st' (installed c amount fee_e8s age free n p) h = omega arith
