-- ===== src/Relay/Configuration.antt =====
-- The checks of the relay's configuration (canisters/relay/src/logic.rs, 346 to 419). The result is
-- the first error, `none` for a configuration that is accepted; the texts of errors are left out.
pub mod Checked
mod Tests
use jupiter_faucet_suite.Common.{
  ℕ, Bool, true, false, Option, none, some, List, [], ◌∷◌, ◌==◌, ◌||◌, if◌then◌else◌, ltb, length,
}
use jupiter_faucet_suite.Ledger.{Principal}
use jupiter_faucet_suite.Relay.Surplus.{SurplusTarget}

pub data CyclesProbePolicy : Type 0 where
  fixed_blackhole : Principal → CyclesProbePolicy
  auto : CyclesProbePolicy

pub record SurplusRecipient : Type 0 where
  pub target : SurplusTarget
  pub memo : Option (List ℕ)

pub record Config : Type 0 where
  pub managed_canisters : List Principal
  pub ledger_canister_id : Principal
  pub cmc_canister_id : Principal
  pub governance_canister_id : Principal
  pub sns_rewards_canister_id : Principal
  pub icp_index_canister_id : Principal
  pub cycles_probe_policy : CyclesProbePolicy
  pub main_interval_seconds : ℕ
  pub max_transfers_per_tick : Option ℕ
  pub surplus_recipients : List SurplusRecipient

pub data ConfigError : Type 0 where
  anonymous_principal management_principal zero_max_transfers duplicate_managed : ConfigError
  zero_neuron memo_too_long duplicate_target interval_too_short : ConfigError

-- `?`: the first error.
abbrev pub first_error : Option ConfigError → Option ConfigError → Option ConfigError
first_error (some e) rest = some e
first_error none rest = rest

abbrev pub target_eq : SurplusTarget → SurplusTarget → Bool
target_eq (SurplusTarget.canister p) (SurplusTarget.canister q) = p == q
target_eq (SurplusTarget.neuron m) (SurplusTarget.neuron n) = m == n
target_eq (SurplusTarget.canister p) (SurplusTarget.neuron n) = false
target_eq (SurplusTarget.neuron m) (SurplusTarget.canister q) = false

abbrev pub has_principal : List Principal → Principal → Bool
has_principal [] p = false
has_principal (q ∷ seen) p = (q == p) || has_principal seen p

abbrev pub has_target : List SurplusTarget → SurplusTarget → Bool
has_target [] t = false
has_target (u ∷ seen) t = target_eq u t || has_target seen t

abbrev pub max_relay_surplus_memo_bytes : ℕ
max_relay_surplus_memo_bytes = 32

abbrev pub check_memo : Option (List ℕ) → Option ConfigError
check_memo none = none
check_memo (some memo) =
    if ltb max_relay_surplus_memo_bytes (length memo) then some ConfigError.memo_too_long else none

abbrev pub check_max_transfers : Option ℕ → Option ConfigError
check_max_transfers none = none
check_max_transfers (some n) = if n == 0 then some ConfigError.zero_max_transfers else none

module _ (anonymous management_canister : Principal) where
  unfoldable pub validate_canister_principal : Principal → Option ConfigError
  validate_canister_principal p =
      if p == anonymous
      then some ConfigError.anonymous_principal
      else if p == management_canister
      then some ConfigError.management_principal
      else none

  abbrev pub check_probe : CyclesProbePolicy → Option ConfigError
  check_probe (CyclesProbePolicy.fixed_blackhole id) = validate_canister_principal id
  check_probe CyclesProbePolicy.auto = none

  unfoldable pub check_managed : List Principal → List Principal → Option ConfigError
  check_managed seen [] = none
  check_managed seen (p ∷ ps) =
      let rest = check_managed (p ∷ seen) ps in
      first_error (validate_canister_principal p)
        (if has_principal seen p then some ConfigError.duplicate_managed else rest)

  abbrev pub check_target : SurplusTarget → Option ConfigError
  check_target (SurplusTarget.canister p) = validate_canister_principal p
  check_target (SurplusTarget.neuron n) = if n == 0 then some ConfigError.zero_neuron else none

  unfoldable pub check_recipients : List SurplusTarget → List SurplusRecipient → Option ConfigError
  check_recipients seen [] = none
  check_recipients seen (r ∷ rs) =
      let rest = check_recipients (r.target ∷ seen) rs in
      first_error (check_target r.target) (
        first_error (check_memo r.memo)
          (if has_target seen r.target then some ConfigError.duplicate_target else rest))

  unfoldable pub validate_config : Config → Option ConfigError
  validate_config cfg = first_error (validate_canister_principal cfg.ledger_canister_id) (
      first_error (validate_canister_principal cfg.cmc_canister_id) (
        first_error (validate_canister_principal cfg.governance_canister_id) (
          first_error (check_probe cfg.cycles_probe_policy) (
            first_error (validate_canister_principal cfg.sns_rewards_canister_id) (
              first_error (validate_canister_principal cfg.icp_index_canister_id) (
                first_error (check_max_transfers cfg.max_transfers_per_tick) (
                  first_error (check_managed [] cfg.managed_canisters) (
                    first_error (check_recipients [] cfg.surplus_recipients) (
                      if ltb cfg.main_interval_seconds 60
                      then some ConfigError.interval_too_short
                      else none)))))))))
