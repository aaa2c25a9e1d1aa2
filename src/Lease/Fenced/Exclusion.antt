-- ===== src/Lease/Fenced/Exclusion.antt =====
-- The fence holds over every history of a lock: of all guards ever acquired, only the newest owns it.
use jupiter_faucet_suite.Common.{
  u64_max, sat_add, ℕ, ◌+◌, ◌≤◌, ◌<◌, ◌≡◌, Bool, true, false, Option, some, List, [], ◌∷◌, All,
  arith,
}
use jupiter_faucet_suite.Lease.Fenced.{FencedTimerLeaseGuard, acquire, owns}

-- The lock cell and the generation cell of a canister.
pub record Cells : Type 0 where
  pub lock : Option ℕ
  pub generation : ℕ

-- What can happen to cells that hold u64, with every guard acquired so far, the newest first: an acquisition
-- writes both cells; a release or a renewal of the lease rewrites the lock alone; an upgrade frees the
-- lock and moves the generation on, up to the greatest u64, as the historian's does
-- (canisters/historian/src/lifecycle.rs).
pub data History : Cells → List FencedTimerLeaseGuard → Type 0 where
  start : (c : Cells) → c.generation ≤ u64_max → History c []
  acquired :
      {c : Cells} {gs : List FencedTimerLeaseGuard} (now lease : ℕ) (preempt : Bool)
      (g : FencedTimerLeaseGuard)
      → History c gs
      → acquire now lease c.lock c.generation preempt ≡ some g
      → History (record { lock = some g.lease_expires_at_ts; generation = g.generation }) (g ∷ gs)
  relocked :
      {c : Cells} {gs : List FencedTimerLeaseGuard} (lock : Option ℕ)
      → History c gs
      → History (record { lock = lock; generation = c.generation }) gs
  upgraded :
      {c : Cells} {gs : List FencedTimerLeaseGuard}
      → History c gs
      → History (record { lock = some 0; generation = sat_add c.generation 1 }) gs

-- A guard just acquired owns the cells that its acquisition writes, and its generation is the next.
pub acquire-owns :
    (now lease : ℕ) (lock : Option ℕ) (gen : ℕ) (preempt : Bool) {g : FencedTimerLeaseGuard}
    → acquire now lease lock gen preempt ≡ some g
    → (owns g (some g.lease_expires_at_ts) g.generation ≡ true) × (g.generation ≡ gen + 1)
unfolding acquire owns
acquire-owns now lease lock gen preempt e = ground arith

acquire-word :
    (now lease : ℕ) (lock : Option ℕ) (gen : ℕ) (preempt : Bool) {g : FencedTimerLeaseGuard}
    → acquire now lease lock gen preempt ≡ some g
    → g.generation ≤ u64_max
unfolding acquire
acquire-word now lease lock gen preempt e = ground arith

History-word : {c : Cells} {gs : List FencedTimerLeaseGuard} → History c gs → c.generation ≤ u64_max
History-word (start c word) = word
History-word (acquired {c} now lease preempt g h e) =
    acquire-word now lease c.lock c.generation preempt e
History-word (relocked lock h) = History-word h
History-word (upgraded h) = omega arith

abbrev Older : ℕ → List FencedTimerLeaseGuard → Type 0
Older n = All (λ g. g.generation ≤ n)

Older-mono : (m n : ℕ) (gs : List FencedTimerLeaseGuard) → m ≤ n → Older m gs → Older n gs
Older-mono m n [] h o = tt
Older-mono m n (g ∷ gs) h o = (omega arith, Older-mono m n gs h o.1)

History-Older : {c : Cells} {gs : List FencedTimerLeaseGuard} → History c gs → Older c.generation gs
History-Older (start c word) = tt
History-Older (acquired {c} {gs} now lease preempt g h e) = (
  omega arith,
  Older-mono c.generation g.generation gs
      (omega (arith, acquire-owns now lease c.lock c.generation preempt e)) (History-Older h),
)
History-Older (relocked lock h) = History-Older h
History-Older (upgraded {c} {gs} h) =
    Older-mono c.generation (sat_add c.generation 1) gs (let word = History-word h in omega arith)
      (History-Older h)

abbrev pub NotOwner : Option ℕ → ℕ → FencedTimerLeaseGuard → Type 0
NotOwner lock gen g = owns g lock gen ≡ false

abbrev pub tail_of : List FencedTimerLeaseGuard → List FencedTimerLeaseGuard
tail_of [] = []
tail_of (g ∷ gs) = gs

-- All generations are below the bound.
abbrev Below : ℕ → List FencedTimerLeaseGuard → Type 0
Below n = All (λ g. g.generation < n)

Below-mono : (m n : ℕ) (gs : List FencedTimerLeaseGuard) → m ≤ n → Below m gs → Below n gs
Below-mono m n [] h o = tt
Below-mono m n (g ∷ gs) h o = (omega arith, Below-mono m n gs h o.1)

Older-Below : (m n : ℕ) (gs : List FencedTimerLeaseGuard) → m < n → Older m gs → Below n gs
Older-Below m n [] h o = tt
Older-Below m n (g ∷ gs) h o = (omega arith, Older-Below m n gs h o.1)

Below-NotOwner :
    (lock : Option ℕ) (n : ℕ) (gs : List FencedTimerLeaseGuard)
    → Below n gs
    → All (NotOwner lock n) gs
unfolding owns
Below-NotOwner lock n [] o = tt
Below-NotOwner lock n (g ∷ gs) o = (ground arith, Below-NotOwner lock n gs o.1)

History-Below :
    {c : Cells} {gs : List FencedTimerLeaseGuard} → History c gs → Below c.generation (tail_of gs)
History-Below (start c word) = tt
History-Below (acquired {c} {gs} now lease preempt g h e) =
    Older-Below c.generation g.generation gs
      (omega (arith, acquire-owns now lease c.lock c.generation preempt e)) (History-Older h)
History-Below (relocked lock h) = History-Below h
History-Below (upgraded {c} {gs} h) =
    Below-mono c.generation (sat_add c.generation 1) (tail_of gs)
      (let word = History-word h in omega arith) (History-Below h)

-- In every history no guard but the newest one owns the cells, whatever the clock, the leases and
-- the preemptions were; and after an upgrade below the greatest generation, none does.
pub owner_is_newest :
    {c : Cells} {gs : List FencedTimerLeaseGuard}
    → History c gs
    → (lock : Option ℕ)
    → All (NotOwner lock c.generation) (tail_of gs)
      × (c.generation < u64_max → All (NotOwner lock (sat_add c.generation 1)) gs)
owner_is_newest {c} {gs} h lock = (
  Below-NotOwner lock c.generation (tail_of gs) (History-Below h),
  λ (small : c.generation < u64_max).
      Below-NotOwner lock (sat_add c.generation 1) gs
        (Older-Below c.generation (sat_add c.generation 1) gs (omega arith) (History-Older h)),
)
