-- ===== src/Memo.antt =====
-- The memos of commitments (crates/memo-policy/src/lib.rs): what a memo asks to be paid. Text is the
-- list of its bytes; a memo that is parsed is ASCII.
pub mod Subaccount
pub mod Directive
pub mod Soundness
pub mod Justified
mod Tests
use jupiter_faucet_suite.Common.{
  ℕ, ◌+◌, ◌-◌, ◌*◌, ◌/◌, ◌%◌, ◌≤◌, ◌≡◌, ◌≢◌, Bool, true, false, Option, none, some, List, [], ◌∷◌,
  ◌++◌, ◌==◌, ◌&&◌, ◌||◌, not, is_none, if◌then◌else◌, leb, ltb, length, replicate, be_bytes,
  from_be_bytes, u64_max,
}
use jupiter_faucet_suite.Ledger.{Principal}

abbrev pub max_target_canister_memo_bytes : ℕ
max_target_canister_memo_bytes = 32

abbrev pub max_neuron_id_memo_bytes : ℕ
max_neuron_id_memo_bytes = 20

pub data MemoDirective : Type 0 where
  top_up : Principal → MemoDirective
  raw_icp : Principal → Option (List ℕ) → List ℕ → MemoDirective
  neuron_stake : ℕ → Option (List ℕ) → MemoDirective

-- What the crate candid gives: the reading of a principal's text and two principals. Event
-- Horizon's is the one that its text in aliases.rs spells.
pub record Principals : Type 0 where
  pub from_text : List ℕ → Option Principal
  pub anonymous : Principal
  pub management_canister : Principal
  pub event_horizon : Principal

abbrev pub all_bytes : (ℕ → Bool) → List ℕ → Bool
all_bytes test [] = true
all_bytes test (b ∷ bs) = test b && all_bytes test bs

abbrev pub has_byte : ℕ → List ℕ → Bool
has_byte c [] = false
has_byte c (b ∷ bs) = (b == c) || has_byte c bs

-- `char::is_whitespace` and `u8::is_ascii_whitespace` on ASCII.
abbrev pub is_whitespace : ℕ → Bool
is_whitespace b = (leb 9 b && leb b 13) || (b == 32)

abbrev pub is_ascii_whitespace : ℕ → Bool
is_ascii_whitespace b = is_whitespace b && not (b == 11)

abbrev pub is_ascii_digit : ℕ → Bool
is_ascii_digit b = leb 48 b && leb b 57

unfoldable pub trim_start : List ℕ → List ℕ
trim_start [] = []
trim_start (b ∷ bs) = let rest = trim_start bs in if is_whitespace b then rest else b ∷ bs

abbrev pub is_empty : List ℕ → Bool
is_empty [] = true
is_empty (b ∷ bs) = false

unfoldable pub trim_end : List ℕ → List ℕ
trim_end [] = []
trim_end (b ∷ bs) =
    let rest = trim_end bs in if is_empty rest && is_whitespace b then [] else b ∷ rest

unfoldable pub trim : List ℕ → List ℕ
trim text = trim_end (trim_start text)

abbrev pub with_first : ℕ → Option (List ℕ × List ℕ) → Option (List ℕ × List ℕ)
with_first b none = none
with_first b (some (before, after)) = some (b ∷ before, after)

-- `split_once`: the text before and after the first `c`.
unfoldable pub split_once : ℕ → List ℕ → Option (List ℕ × List ℕ)
split_once c [] = none
split_once c (b ∷ bs) =
    let rest = split_once c bs in if b == c then some ([], bs) else with_first b rest

-- `text.parse::<u64>()` on ASCII digits.
unfoldable pub decimal : ℕ → List ℕ → ℕ
decimal acc [] = acc
decimal acc (d ∷ ds) = decimal (acc * 10 + (d - 48)) ds

abbrev pub parse_u64 : List ℕ → Option ℕ
parse_u64 text = if leb (decimal 0 text) u64_max then some (decimal 0 text) else none

-- The text with a `-` before each fifth byte but the first.
unfoldable pub with_groups : ℕ → List ℕ → List ℕ
with_groups idx [] = []
with_groups idx (b ∷ bs) =
    let rest = with_groups (idx + 1) bs in
    if ltb 0 idx && ((idx % 5) == 0) then 45 ∷ b ∷ rest else b ∷ rest

unfoldable pub principal_text_with_group_separators : List ℕ → List ℕ
principal_text_with_group_separators text = if has_byte 45 text then text else with_groups 0 text

abbrev pub allowed : Principals → Option Principal → Option Principal
allowed ps none = none
allowed ps (some p) = if (p == ps.anonymous) || (p == ps.management_canister) then none else some p

unfoldable pub parse_declared_principal_text : Principals → List ℕ → Option Principal
parse_declared_principal_text ps text =
    if is_empty (trim text) || ltb max_target_canister_memo_bytes (length (trim text))
    then none
    else allowed ps (ps.from_text (principal_text_with_group_separators (trim text)))

abbrev nonzero : Option ℕ → Option ℕ
nonzero none = none
nonzero (some n) = if n == 0 then none else some n

unfoldable pub parse_neuron_id_text : List ℕ → Option ℕ
parse_neuron_id_text text =
    if is_empty text || ltb max_neuron_id_memo_bytes (length text)
    then none
    else if not (all_bytes is_ascii_digit text)
    then none
    else nonzero (parse_u64 text)

unfoldable pub numbered_subaccount : ℕ → Option (List ℕ)
numbered_subaccount number =
    if number == 0 then none else some (replicate 24 0 ++ be_bytes 8 number)

abbrev take_bytes : ℕ → List ℕ → List ℕ
take_bytes n [] = []
take_bytes n (b ∷ bs) = if n == 0 then [] else b ∷ take_bytes (n - 1) bs

abbrev drop_bytes : ℕ → List ℕ → List ℕ
drop_bytes n [] = []
drop_bytes n (b ∷ bs) = if n == 0 then b ∷ bs else drop_bytes (n - 1) bs

-- `none` is the error.
unfoldable pub numbered_subaccount_number : List ℕ → Option (Option ℕ)
numbered_subaccount_number subaccount =
    if not (all_bytes (λ b. b == 0) (take_bytes 24 subaccount))
    then none
    else some (nonzero (some (from_be_bytes 0 (drop_bytes 24 subaccount))))

abbrev numbered : Option ℕ → Option (Option (List ℕ))
numbered none = none
numbered (some n) = some (numbered_subaccount n)

unfoldable pub parse_numbered_subaccount_text : List ℕ → Option (Option (List ℕ))
parse_numbered_subaccount_text text =
    if is_empty text || not (all_bytes is_ascii_digit text) then none else numbered (parse_u64 text)

abbrev pub both : Option Principal → Option (Option (List ℕ)) → Option (Principal × Option (List ℕ))
both none sub = none
both (some p) none = none
both (some p) (some sub) = some (p, sub)

abbrev pub destination_of :
    Principals → List ℕ → Option (List ℕ × List ℕ) → Option (Principal × Option (List ℕ))
destination_of ps destination none = both (parse_declared_principal_text ps destination) (some none)
destination_of ps destination (some (owner_text, number_text)) =
    if is_empty owner_text
      || is_empty number_text
      || has_byte 58 number_text
      || not (all_bytes (λ b. not (is_ascii_whitespace b)) destination)
    then none
    else both (parse_declared_principal_text ps owner_text)
        (parse_numbered_subaccount_text number_text)

unfoldable pub parse_raw_destination_text :
    Principals → List ℕ → Option (Principal × Option (List ℕ))
parse_raw_destination_text ps text = destination_of ps (trim text) (split_once 58 (trim text))
