-- ===== src/Memo/Tests.antt =====
-- The memo theorems at concrete memos.
use jupiter_faucet_suite.Common.{
  from_be_bytes, All, ℕ, ◌≤◌, ◌<◌, ◌≡◌, refl, true, none, some, List, [], ◌∷◌, ◌++◌, arith, length,
  replicate, leb,
}
use jupiter_faucet_suite.Memo.Soundness.{Justified}
use jupiter_faucet_suite.Memo.{
  decimal, trim_end, trim_start, MemoDirective, Principals, all_bytes, numbered_subaccount_number,
  parse_neuron_id_text, split_once, trim,
}
use jupiter_faucet_suite.Memo.Directive.{parse_memo_directive}
use jupiter_faucet_suite.Memo.Justified.{memo_directive-Justified}
use jupiter_faucet_suite.Memo.Subaccount.{subaccount_round_trip, bytes_of}

abbrev principals : Principals
principals = record {
  from_text = λ t. none;
  anonymous = 0;
  management_canister = 1;
  event_horizon = 2;
}

-- " 42.hi"
abbrev memo : List ℕ
memo = 32 ∷ 52 ∷ 50 ∷ 46 ∷ 104 ∷ 105 ∷ []

abbrev directive : MemoDirective
directive = MemoDirective.neuron_stake 42 (some (104 ∷ 105 ∷ []))

memo_is_read : parse_memo_directive principals memo ≡ some directive
unfolding parse_memo_directive split_once trim trim_start trim_end parse_neuron_id_text decimal
memo_is_read = refl

memo_directive-Justified_example :
    (0 < length memo)
    × (length memo ≤ 32)
    × (all_bytes (λ b. leb b 127) memo ≡ true)
    × Justified principals memo directive
memo_directive-Justified_example = memo_directive-Justified principals memo directive memo_is_read

-- The subaccount of 258.
abbrev two_five_eight : List ℕ
two_five_eight = replicate 30 0 ++ 1 ∷ 2 ∷ []

is_258 : numbered_subaccount_number two_five_eight ≡ some (some 258)
unfolding numbered_subaccount_number from_be_bytes
is_258 = refl

are_bytes : All (λ b. b < 256) two_five_eight
are_bytes = ground arith

subaccount_round_trip_example :
    (numbered_subaccount_number (bytes_of (some 7)) ≡ some (some 7))
    × (bytes_of (some 258) ≡ two_five_eight)
subaccount_round_trip_example =
    subaccount_round_trip 7 two_five_eight (some 258) (omega arith) (omega arith) refl are_bytes
      is_258
