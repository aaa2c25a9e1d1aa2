-- ===== src/Faucet/IndexHealth/Paging.antt =====
-- What a valid page of history is.
use jupiter_faucet_suite.Common.{
  ◌⊎◌, ℕ, ◌≤◌, ◌<◌, ◌≡◌, refl, inl, inr, Bool, false, Option, none, some, List, [], ◌∷◌, option_eq,
  option_eq_iff, length, arith, Bool-cases, All,
}
use jupiter_faucet_suite.Memo.Soundness.{injected}
use jupiter_faucet_suite.Faucet.IndexHealth.{
  differs, Page, validate_history_page, is_invalid, ending, last_id, first_id, not_descending,
  below_oldest, reaches_cursor,
}

-- Newest first, without repetition.
abbrev pub Descending : List ℕ → Type 0
Descending [] = Unit
Descending (i ∷ []) = Unit
Descending (i ∷ j ∷ is) = (j < i) × Descending (j ∷ is)

-- Older than the cursor, and not older than the oldest.
abbrev pub Between : Option ℕ → Option ℕ → ℕ → Type 0
Between cursor none i = ⊥
Between none (some o) i = o ≤ i
Between (some c) (some o) i = (o ≤ i) × (i < c)

-- The last entry so far: the page's last one, or the cursor on an empty page.
abbrev pub end_of : List ℕ → Option ℕ → Option ℕ
end_of [] cursor = cursor
end_of (i ∷ is) cursor = last_id (i ∷ is)

descends : (ids : List ℕ) → not_descending ids ≡ false → Descending ids
descends [] h = tt
descends (i ∷ []) h = tt
descends (i ∷ j ∷ is) h = (ground (arith, h), descends (j ∷ is) (ground (arith, h)))

module _ (o : ℕ) where
  -- In a descending list that starts under the cursor, all is under it.
  under_cursor :
      (cursor : Option ℕ) (ids : List ℕ)
      → not_descending ids ≡ false
      → below_oldest (some o) ids ≡ false
      → reaches_cursor (first_id ids) cursor ≡ false
      → All (Between cursor (some o)) ids
  under_cursor cursor [] d b r = tt
  under_cursor none (i ∷ []) d b r = (ground (arith, b), tt)
  under_cursor (some c) (i ∷ []) d b r = ((ground (arith, b), ground (arith, r)), tt)
  under_cursor none (i ∷ j ∷ is) d b r =
      (ground (arith, b), under_cursor none (j ∷ is) (ground (arith, d)) (ground (arith, b)) refl)
  under_cursor (some c) (i ∷ j ∷ is) d b r = (
    (ground (arith, b), ground (arith, r)),
    under_cursor (some c) (j ∷ is) (ground (arith, d)) (ground (arith, b)) (ground (arith, d, r)),
  )

between :
    (cursor oldest : Option ℕ) (ids : List ℕ)
    → not_descending ids ≡ false
    → below_oldest oldest ids ≡ false
    → reaches_cursor (first_id ids) cursor ≡ false
    → All (Between cursor oldest) ids
between cursor none [] d b r = tt
between cursor none (i ∷ is) d b r = absurd cc
between cursor (some o) ids d b r = under_cursor o cursor ids d b r

ends :
    (ids : List ℕ) (cursor oldest : Option ℕ) (e : Bool)
    → ending ids cursor oldest ≡ some e
    → option_eq (end_of ids cursor) oldest ≡ e
ends [] none none e h = injected h
ends [] none (some o) e h = absurd cc
ends [] (some c) none e h = absurd cc
ends [] (some c) (some o) e h = grind arith
ends (i ∷ is) cursor oldest e h = injected h

-- What a validated page promises.
abbrev pub Valid : Page → Option ℕ → Option ℕ → Bool → Type 0
Valid page cursor expected is_last =
    (length page.ids ≤ 500)
    × Descending page.ids
    × All (Between cursor page.oldest_tx_id) page.ids
    × (option_eq (end_of page.ids cursor) page.oldest_tx_id ≡ is_last)
    × ((expected ≡ none) ⊎ (page.oldest_tx_id ≡ expected))

expects :
    (expected oldest : Option ℕ)
    → differs expected oldest ≡ false
    → (expected ≡ none) ⊎ (oldest ≡ expected)
expects none oldest h = inl refl
expects (some id) oldest h = inr ((option_eq_iff oldest (some id)).0 (ground (arith, h)))

-- A page that validates has at most 500 entries, newest first without repetition, all older than
-- the cursor and none older than the account's oldest entry, which is the expected one where one is
-- given; and it is called the last page exactly when the oldest entry is reached.
pub page-Valid :
    (page : Page) (cursor expected : Option ℕ) (is_last : Bool)
    → validate_history_page page cursor expected ≡ some is_last
    → Valid page cursor expected is_last
unfolding validate_history_page
page-Valid page cursor expected is_last h = elim (Bool-cases (is_invalid page cursor expected)) [
  | inl v ↦ absurd (ground (arith, v, h))
  | inr v ↦
      let k : ending page.ids cursor page.oldest_tx_id ≡ some is_last = rw v at h in
      let d : not_descending page.ids ≡ false = ground (arith, v) in
      (
        ground (arith, v),
        descends page.ids d,
        between cursor page.oldest_tx_id page.ids d (ground (arith, v)) (ground (arith, v)),
        ends page.ids cursor page.oldest_tx_id is_last k,
        expects expected page.oldest_tx_id (ground (arith, v)),
      )
]
