-- ===== src/Relay/Proportional.antt =====
-- `proportional_topup_gross_allocations` of canisters/relay/src/logic.rs: floors in proportion to the
-- wishes, then rounds that hand out the rest one by one, largest remainder first. The `while` takes
-- the missing amount as its fuel, since a round that goes on hands out at least one.
pub mod Rounds
pub mod Exact
pub mod Handout
use jupiter_faucet_suite.Common.{
  ℕ, zero, suc, ◌+◌, ◌-◌, ◌*◌, ◌/◌, ◌%◌, Bool, true, false, Option, none, some, List, [], ◌∷◌, map,
  ltb, leb, ◌==◌, ◌&&◌, ◌||◌, min, unwrap_or, if◌then◌else◌, get_elem?, set, sat_add, sat_mul128,
}

-- A wish's floor and its remainder.
unfoldable pub floor_share : ℕ → ℕ → ℕ → ℕ × ℕ
floor_share total available gross =
    if gross == 0
    then (0, 0)
    else (min (sat_mul128 available gross / total) gross, sat_mul128 available gross % total)

unfoldable pub sat_sum : ℕ → List ℕ → ℕ
sat_sum acc [] = acc
sat_sum acc (x ∷ xs) = sat_sum (sat_add acc x) xs

abbrev pub remainders : ℕ → List (ℕ × ℕ) → List (ℕ × ℕ)
remainders index [] = []
remainders index ((share, remainder) ∷ rest) = (index, remainder) ∷ remainders (index + 1) rest

-- The comparison of `sort_by`: larger remainders first, then smaller indices.
abbrev pub comes_before : ℕ × ℕ → ℕ × ℕ → Bool
comes_before (i, r) (j, q) = ltb q r || (r == q && ltb i j)

abbrev pub insert : ℕ × ℕ → List (ℕ × ℕ) → List (ℕ × ℕ)
insert p [] = p ∷ []
insert p (q ∷ qs) = let rest = insert p qs in if comes_before p q then p ∷ q ∷ qs else q ∷ rest

abbrev pub sort : List (ℕ × ℕ) → List (ℕ × ℕ)
sort [] = []
sort (p ∷ ps) = insert p (sort ps)

abbrev pub at : List ℕ → ℕ → ℕ
at xs i = unwrap_or (get_elem? xs i) 0

-- The allocations, what is used, and whether the round has advanced.
abbrev pub Progress : Type 0
Progress = List ℕ × ℕ × Bool

abbrev pub bump : List ℕ → ℕ → Progress → Progress
bump desired i (allocations, used, advanced) =
    if ltb (at allocations i) (at desired i)
    then (set allocations i (sat_add (at allocations i) 1), sat_add used 1, true)
    else (allocations, used, advanced)

unfoldable pub round : List (ℕ × ℕ) → List ℕ → ℕ → Progress → Progress
round [] desired available (allocations, used, advanced) = (allocations, used, advanced)
round ((i, r) ∷ order) desired available (allocations, used, advanced) =
    let next = round order desired available (bump desired i (allocations, used, advanced)) in
    if leb available used then (allocations, used, advanced) else next

unfoldable pub rounds : ℕ → List (ℕ × ℕ) → List ℕ → ℕ → List ℕ → ℕ → List ℕ
rounds zero order desired available allocations used = allocations
rounds (suc fuel) order desired available allocations used =
    let p : Progress = round order desired available (allocations, used, false) in
    let rest : List ℕ = rounds fuel order desired available p.0 p.1 in
    if ltb used available then (if p.2 then rest else p.0) else allocations

abbrev pub first_of : ℕ × ℕ → ℕ
first_of (share, remainder) = share

unfoldable pub proportional_topup_gross_allocations : List ℕ → ℕ → ℕ → List ℕ
proportional_topup_gross_allocations desired total available =
    let floors : List (ℕ × ℕ) = map (floor_share total available) desired in
    let allocations : List ℕ = map first_of floors in
    let used : ℕ = sat_sum 0 allocations in
    rounds (available - used) (sort (remainders 0 floors)) desired available allocations used
