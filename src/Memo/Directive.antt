-- ===== src/Memo/Directive.antt =====
-- `parse_memo_directive` and `parse_target_canister_principal_from_memo`.
use jupiter_faucet_suite.Common.{
  ℕ, Option, none, some, List, [], ◌∷◌, ◌==◌, ◌&&◌, ◌||◌, not, if◌then◌else◌, leb, ltb, length,
}
use jupiter_faucet_suite.Ledger.{Principal}
use jupiter_faucet_suite.Memo.{
  MemoDirective, Principals, max_target_canister_memo_bytes, all_bytes, is_empty, trim, split_once,
  parse_neuron_id_text, parse_raw_destination_text, parse_declared_principal_text,
}

-- `strip_prefix("E.")`.
abbrev pub strip_event_horizon : List ℕ → Option (List ℕ)
strip_event_horizon [] = none
strip_event_horizon (a ∷ []) = none
strip_event_horizon (a ∷ b ∷ suffix) = if a == 69 && b == 46 then some suffix else none

abbrev pub raw_with_memo : List ℕ → Option (Principal × Option (List ℕ)) → Option MemoDirective
raw_with_memo raw_memo none = none
raw_with_memo raw_memo (some (canister_id, sub)) =
    some (MemoDirective.raw_icp canister_id sub raw_memo)

abbrev pub declared : Principals → List ℕ → List ℕ → Option ℕ → Option MemoDirective
declared ps text raw_memo (some neuron_id) =
    some (MemoDirective.neuron_stake neuron_id (some raw_memo))
declared ps text raw_memo none = raw_with_memo raw_memo (parse_raw_destination_text ps text)

abbrev pub topped : Option Principal → Option MemoDirective
topped none = none
topped (some canister_id) = some (MemoDirective.top_up canister_id)

abbrev pub undeclared : Principals → List ℕ → Option ℕ → Option MemoDirective
undeclared ps memo (some neuron_id) = some (MemoDirective.neuron_stake neuron_id none)
undeclared ps memo none = topped (parse_declared_principal_text ps memo)

abbrev pub split_memo : Principals → List ℕ → Option (List ℕ × List ℕ) → Option MemoDirective
split_memo ps memo (some (text, raw_memo)) =
    declared ps text raw_memo (parse_neuron_id_text (trim text))
split_memo ps memo none = undeclared ps memo (parse_neuron_id_text (trim memo))

abbrev pub stripped : Principals → List ℕ → Option (List ℕ) → Option MemoDirective
stripped ps memo (some suffix) =
    if is_empty suffix then none else some (MemoDirective.raw_icp ps.event_horizon none suffix)
stripped ps memo none =
    if is_empty (trim memo) then none else split_memo ps memo (split_once 46 memo)

unfoldable pub parse_memo_directive : Principals → List ℕ → Option MemoDirective
parse_memo_directive ps memo =
    if is_empty memo
      || ltb max_target_canister_memo_bytes (length memo)
      || not (all_bytes (λ b. leb b 127) memo)
    then none
    else stripped ps memo (strip_event_horizon memo)

abbrev pub target_of : Option MemoDirective → Option Principal
target_of none = none
target_of (some (MemoDirective.top_up canister_id)) = some canister_id
target_of (some (MemoDirective.raw_icp canister_id sub memo)) = some canister_id
target_of (some (MemoDirective.neuron_stake neuron_id memo)) = none

unfoldable pub parse_target_canister_principal_from_memo : Principals → List ℕ → Option Principal
parse_target_canister_principal_from_memo ps memo = target_of (parse_memo_directive ps memo)
