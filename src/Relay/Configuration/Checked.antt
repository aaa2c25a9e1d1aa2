-- ===== src/Relay/Configuration/Checked.antt =====
-- The configurations that are accepted.
use jupiter_faucet_suite.Common.{
  ℕ, ◌≤◌, ◌<◌, ◌≡◌, refl, inl, inr, false, Option, none, some, List, [], ◌∷◌, ◌==◌, if◌then◌else◌,
  ltb, length, arith, Bool-cases, All,
}
use jupiter_faucet_suite.Ledger.{Principal}
use jupiter_faucet_suite.Relay.Surplus.{SurplusTarget}
use jupiter_faucet_suite.Relay.Configuration.{
  Config, ConfigError, SurplusRecipient, CyclesProbePolicy, first_error, target_eq, has_principal,
  has_target, check_memo, check_max_transfers, validate_canister_principal, check_probe,
  check_managed, check_target, check_recipients, validate_config,
}

first_error-none : (a b : Option ConfigError) → first_error a b ≡ none → (a ≡ none) × (b ≡ none)
first_error-none none b h = (refl, h)
first_error-none (some e) b h = absurd cc

-- Of no two elements are both the same.
abbrev pub Distinct : List Principal → Type 0
Distinct [] = Unit
Distinct (p ∷ ps) = All (λ q. (p == q) ≡ false) ps × Distinct ps

abbrev pub DistinctTargets : List SurplusRecipient → Type 0
DistinctTargets [] = Unit
DistinctTargets (r ∷ rs) =
    All (λ (s : SurplusRecipient). target_eq r.target s.target ≡ false) rs × DistinctTargets rs

abbrev pub ShortMemo : Option (List ℕ) → Type 0
ShortMemo none = Unit
ShortMemo (some memo) = length memo ≤ 32

abbrev pub PositiveLimit : Option ℕ → Type 0
PositiveLimit none = Unit
PositiveLimit (some n) = 0 < n

memo-Short : (m : Option (List ℕ)) → check_memo m ≡ none → ShortMemo m
memo-Short none h = tt
memo-Short (some memo) h = ground (arith, h)

limit-Positive : (o : Option ℕ) → check_max_transfers o ≡ none → PositiveLimit o
limit-Positive none h = tt
limit-Positive (some n) h = ground (arith, h)

interval_long :
    (n : ℕ) → (if ltb n 60 then some ConfigError.interval_too_short else none) ≡ none → 60 ≤ n
interval_long n h = ground (arith, h)

module _ (anonymous management_canister : Principal) where
  -- Neither anonymous nor the management canister.
  abbrev pub Proper : Principal → Type 0
  Proper p = ((p == anonymous) ≡ false) × ((p == management_canister) ≡ false)

  abbrev pub ProperProbe : CyclesProbePolicy → Type 0
  ProperProbe (CyclesProbePolicy.fixed_blackhole id) = Proper id
  ProperProbe CyclesProbePolicy.auto = Unit

  abbrev pub ProperTarget : SurplusTarget → Type 0
  ProperTarget (SurplusTarget.canister p) = Proper p
  ProperTarget (SurplusTarget.neuron n) = 0 < n

  abbrev pub ProperRecipient : SurplusRecipient → Type 0
  ProperRecipient r = ProperTarget r.target × ShortMemo r.memo

  abbrev pub Checked : Config → Type 0
  Checked cfg =
      All Proper (
        cfg.ledger_canister_id ∷ cfg.cmc_canister_id ∷ cfg.governance_canister_id
        ∷ cfg.sns_rewards_canister_id ∷ cfg.icp_index_canister_id ∷ cfg.managed_canisters)
      × ProperProbe cfg.cycles_probe_policy
      × PositiveLimit cfg.max_transfers_per_tick
      × Distinct cfg.managed_canisters
      × All ProperRecipient cfg.surplus_recipients
      × DistinctTargets cfg.surplus_recipients
      × (60 ≤ cfg.main_interval_seconds)

  principal-Proper :
      (p : Principal)
      → validate_canister_principal anonymous management_canister p ≡ none
      → Proper p
  unfolding validate_canister_principal
  principal-Proper p h = ground (arith, h)

  probe-Proper :
      (c : CyclesProbePolicy) → check_probe anonymous management_canister c ≡ none → ProperProbe c
  probe-Proper (CyclesProbePolicy.fixed_blackhole id) h = principal-Proper id h
  probe-Proper CyclesProbePolicy.auto h = tt

  target-Proper :
      (t : SurplusTarget) → check_target anonymous management_canister t ≡ none → ProperTarget t
  target-Proper (SurplusTarget.canister p) h = principal-Proper p h
  target-Proper (SurplusTarget.neuron n) h = ground (arith, h)

  -- What a list that is accepted after `seen` does not repeat.
  managed-Checked :
      (seen ps : List Principal)
      → check_managed anonymous management_canister seen ps ≡ none
      → All Proper ps × Distinct ps × All (λ p. has_principal seen p ≡ false) ps
  unfolding check_managed
  managed-Checked seen [] h = (tt, tt, tt)
  managed-Checked seen (p ∷ ps) h =
      let e =
        first_error-none (validate_canister_principal anonymous management_canister p)
          (if has_principal seen p
            then some ConfigError.duplicate_managed
            else check_managed anonymous management_canister (p ∷ seen) ps)
          h in
      elim (Bool-cases (has_principal seen p)) [
        | inl v ↦ absurd (let z = rw v at e.1 in cc)
        | inr v ↦
            let r = managed-Checked (p ∷ seen) ps (rw v at e.1) in
            let s = apart p seen ps r.2 in ((principal-Proper p e.0, r.0), (s.0, r.1), (v, s.1))
      ]
    where
      apart :
          (p : Principal) (seen ps : List Principal)
          → All (λ q. has_principal (p ∷ seen) q ≡ false) ps
          → All (λ q. (p == q) ≡ false) ps × All (λ q. has_principal seen q ≡ false) ps
      apart p seen [] h = (tt, tt)
      apart p seen (q ∷ qs) h =
          let r = apart p seen qs h.1 in
          let k = h.0 in ((ground (arith, k), r.0), (ground (arith, k), r.1))

  recipients-Checked :
      (seen : List SurplusTarget) (rs : List SurplusRecipient)
      → check_recipients anonymous management_canister seen rs ≡ none
      → All ProperRecipient rs
        × DistinctTargets rs
        × All (λ (r : SurplusRecipient). has_target seen r.target ≡ false) rs
  unfolding check_recipients
  recipients-Checked seen [] h = (tt, tt, tt)
  recipients-Checked seen (r ∷ rs) h =
      let rest = check_recipients anonymous management_canister (r.target ∷ seen) rs in
      let new = if has_target seen r.target then some ConfigError.duplicate_target else rest in
      let e =
        first_error-none (check_target anonymous management_canister r.target)
          (first_error (check_memo r.memo) new) h in
      let m = first_error-none (check_memo r.memo) new e.1 in
      elim (Bool-cases (has_target seen r.target)) [
        | inl v ↦ absurd (let z = rw v at m.1 in cc)
        | inr v ↦
            let k = recipients-Checked (r.target ∷ seen) rs (rw v at m.1) in
            let s = apart r.target seen rs k.2 in
            (((target-Proper r.target e.0, memo-Short r.memo m.0), k.0), (s.0, k.1), (v, s.1))
      ]
    where
      apart :
          (t : SurplusTarget) (seen : List SurplusTarget) (rs : List SurplusRecipient)
          → All (λ (r : SurplusRecipient). has_target (t ∷ seen) r.target ≡ false) rs
          → All (λ (r : SurplusRecipient). target_eq t r.target ≡ false) rs
            × All (λ (r : SurplusRecipient). has_target seen r.target ≡ false) rs
      apart t seen [] h = (tt, tt)
      apart t seen (q ∷ qs) h =
          let r = apart t seen qs h.1 in
          let k = h.0 in ((ground (arith, k), r.0), (ground (arith, k), r.1))

lists-Checked :
    (anonymous management_canister : Principal) (cfg : Config)
    → first_error (check_max_transfers cfg.max_transfers_per_tick) (
        first_error (check_managed anonymous management_canister [] cfg.managed_canisters) (
          first_error (check_recipients anonymous management_canister [] cfg.surplus_recipients) (
            if ltb cfg.main_interval_seconds 60
            then some ConfigError.interval_too_short
            else none)))
      ≡ none
    → PositiveLimit cfg.max_transfers_per_tick
      × (check_managed anonymous management_canister [] cfg.managed_canisters ≡ none)
      × (check_recipients anonymous management_canister [] cfg.surplus_recipients ≡ none)
      × (60 ≤ cfg.main_interval_seconds)
lists-Checked anonymous management_canister cfg h =
    let last =
      if ltb cfg.main_interval_seconds 60 then some ConfigError.interval_too_short else none in
    let recipients = check_recipients anonymous management_canister [] cfg.surplus_recipients in
    let managed = check_managed anonymous management_canister [] cfg.managed_canisters in
    let e1 =
      first_error-none (check_max_transfers cfg.max_transfers_per_tick)
        (first_error managed (first_error recipients last)) h in
    let e2 = first_error-none managed (first_error recipients last) e1.1 in
    let e3 = first_error-none recipients last e2.1 in
    (
      limit-Positive cfg.max_transfers_per_tick e1.0,
      e2.0,
      e3.0,
      interval_long cfg.main_interval_seconds e3.1,
    )

-- A configuration that the checks accept has no anonymous principal and not the management canister
-- in it, no canister that is managed twice, no target that receives twice, only neurons above 0 and
-- memos of at most 32 bytes, a limit of transfers above 0 where it has one, and an interval of a
-- minute or more.
pub validate_config-Checked :
    (anonymous management_canister : Principal) (cfg : Config)
    → validate_config anonymous management_canister cfg ≡ none
    → Checked anonymous management_canister cfg
unfolding validate_config
validate_config-Checked anonymous management_canister cfg h =
    let last =
      if ltb cfg.main_interval_seconds 60 then some ConfigError.interval_too_short else none in
    let c7 = first_error (check_max_transfers cfg.max_transfers_per_tick) (
      first_error (check_managed anonymous management_canister [] cfg.managed_canisters) (
        first_error (check_recipients anonymous management_canister [] cfg.surplus_recipients)
          last)) in
    let v = validate_canister_principal anonymous management_canister in
    let probe = check_probe anonymous management_canister cfg.cycles_probe_policy in
    let c6 = first_error (v cfg.icp_index_canister_id) c7 in
    let c5 = first_error (v cfg.sns_rewards_canister_id) c6 in
    let c4 = first_error probe c5 in
    let c3 = first_error (v cfg.governance_canister_id) c4 in
    let e1 =
      first_error-none (v cfg.ledger_canister_id) (first_error (v cfg.cmc_canister_id) c3) h in
    let e2 = first_error-none (v cfg.cmc_canister_id) c3 e1.1 in
    let e3 = first_error-none (v cfg.governance_canister_id) c4 e2.1 in
    let e4 = first_error-none probe c5 e3.1 in
    let e5 = first_error-none (v cfg.sns_rewards_canister_id) c6 e4.1 in
    let e6 = first_error-none (v cfg.icp_index_canister_id) c7 e5.1 in
    let ls = lists-Checked anonymous management_canister cfg e6.1 in
    let ms = managed-Checked anonymous management_canister [] cfg.managed_canisters ls.1 in
    let rs = recipients-Checked anonymous management_canister [] cfg.surplus_recipients ls.2 in
    let p = principal-Proper anonymous management_canister in
    (
      (
        p cfg.ledger_canister_id e1.0,
        (
          p cfg.cmc_canister_id e2.0,
          (
            p cfg.governance_canister_id e3.0,
            (p cfg.sns_rewards_canister_id e5.0, (p cfg.icp_index_canister_id e6.0, ms.0)),
          ),
        ),
      ),
      probe-Proper anonymous management_canister cfg.cycles_probe_policy e4.0,
      ls.0,
      ms.1,
      rs.0,
      rs.1,
      ls.3,
    )
