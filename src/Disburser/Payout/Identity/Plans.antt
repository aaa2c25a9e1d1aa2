-- ===== src/Disburser/Payout/Identity/Plans.antt =====
-- The plans that were persisted: numbered transfers, under ids that fall below the nonce.
use jupiter_faucet_suite.Common.{
  ℕ, zero, suc, ◌+◌, ◌≤◌, ◌<◌, ◌≡◌, ◌⊎◌, inl, inr, refl, sym, ap, ◌∙◌, subst, some, List, [], ◌∷◌,
  map, arith, length, get_elem?, All,
}
use jupiter_faucet_suite.Disburser.State.{PayoutPlan, PlannedTransfer, TransferStatus}
use jupiter_faucet_suite.Disburser.Plan.{Planned, build_memo}
use jupiter_faucet_suite.Disburser.Plan.Bounds.{Sequenced, plan-Sequenced}
use jupiter_faucet_suite.Disburser.Payout.{Call, first_pending, to_transfer, build_plan, sent_at}

abbrev unsent : PlannedTransfer → PlannedTransfer
unsent t = record t { status = TransferStatus.pending }

-- A plan as it was installed, before any transfer was sent.
abbrev pub reset : PayoutPlan → PayoutPlan
reset p = record p { transfers = map unsent p.transfers }

unsent-sent_at :
    (block i : ℕ) (ts : List PlannedTransfer) → map unsent (sent_at block i ts) ≡ map unsent ts
unsent-sent_at block i [] = refl
unsent-sent_at block zero (t ∷ ts) = refl
unsent-sent_at block (suc i) (t ∷ ts) = ap (◌∷◌ (unsent t)) (unsent-sent_at block i ts)

pub reset-sent_at :
    (block i : ℕ) (p : PayoutPlan)
    → reset (record p { transfers = sent_at block i p.transfers }) ≡ reset p
reset-sent_at block i p = cc (unsent-sent_at block i p.transfers)

-- The memos carry the plan's id and the positions from `k` on.
abbrev pub Numbered : ℕ → ℕ → List PlannedTransfer → Type 0
Numbered id k [] = Unit
Numbered id k (t ∷ ts) = (t.memo ≡ build_memo id k) × Numbered id (k + 1) ts

abbrev pub IsNumbered : PayoutPlan → Type 0
IsNumbered p = Numbered p.id 0 p.transfers × (length p.transfers ≤ 3)

Sequenced-Numbered :
    (id base fee k : ℕ) (ps : List Planned)
    → Sequenced id base fee k ps
    → Numbered id k (map to_transfer ps)
Sequenced-Numbered id base fee k [] s = tt
Sequenced-Numbered id base fee k (p ∷ ps) (a, b, c, d, s) =
    (c, Sequenced-Numbered id base fee (k + 1) ps s)

length-map_transfer : (ps : List Planned) → length (map to_transfer ps) ≡ length ps
length-map_transfer [] = refl
length-map_transfer (p ∷ ps) = ap suc (length-map_transfer ps)

unsent-to_transfer : (ps : List Planned) → map unsent (map to_transfer ps) ≡ map to_transfer ps
unsent-to_transfer [] = refl
unsent-to_transfer (p ∷ ps) = ap (◌∷◌ (to_transfer p)) (unsent-to_transfer ps)

module _ (c : Call) (id balance fee age : ℕ) where
  pub reset-build_plan : reset (build_plan c id balance fee age) ≡ build_plan c id balance fee age
  unfolding build_plan
  reset-build_plan = cc (unsent-to_transfer _)

  pub build_plan-id : (build_plan c id balance fee age).id ≡ id
  unfolding build_plan
  build_plan-id = refl

  pub build_plan-IsNumbered : IsNumbered (build_plan c id balance fee age)
  unfolding build_plan
  build_plan-IsNumbered =
      let plan =
        plan-Sequenced id c.now_nanos balance fee age c.cfg.normal_recipient
          c.cfg.age_bonus_recipient_1 c.cfg.age_bonus_recipient_2 in
      (
        Sequenced-Numbered id c.now_nanos fee 0 _ plan.0,
        omega (arith, plan.1, length-map_transfer (_)),
      )

-- Membership as a recursion, which the tactics take apart.
abbrev pub In : {A : Type 0} → A → List A → Type 0
In x [] = ⊥
In x (y ∷ ys) = (x ≡ y) ⊎ In x ys

-- The ids fall along the list and stay below the bound.
abbrev pub Descending : ℕ → List PayoutPlan → Type 0
Descending n [] = Unit
Descending n (p ∷ ps) = (p.id < n) × Descending p.id ps

pub Descending-mono : (m n : ℕ) (ps : List PayoutPlan) → m ≤ n → Descending m ps → Descending n ps
Descending-mono m n [] le d = tt
Descending-mono m n (p ∷ ps) le d = (omega arith, d.1)

pub Descending-lt :
    (n : ℕ) (ps : List PayoutPlan) (q : PayoutPlan) → Descending n ps → In q ps → q.id < n
Descending-lt n [] q d m = absurd m
Descending-lt n (p ∷ ps) q d (inl e) = rw e d.0
Descending-lt n (p ∷ ps) q d (inr m) =
    Descending-lt n ps q (Descending-mono p.id n ps (omega arith) d.1) m

-- A plan is told by its id.
pub same_id_same_plan :
    (n : ℕ) (ps : List PayoutPlan) (p q : PayoutPlan)
    → Descending n ps
    → In p ps
    → In q ps
    → p.id ≡ q.id
    → p ≡ q
same_id_same_plan n [] p q d m k e = absurd m
same_id_same_plan n (r ∷ ps) p q d (inl m) (inl k) e = m ∙ sym k
same_id_same_plan n (r ∷ ps) p q d (inl m) (inr k) e =
    absurd (omega (arith, Descending-lt r.id ps q d.1 k, ap (λ (x : PayoutPlan). x.id) m))
same_id_same_plan n (r ∷ ps) p q d (inr m) (inl k) e =
    absurd (omega (arith, Descending-lt r.id ps p d.1 m, ap (λ (x : PayoutPlan). x.id) k))
same_id_same_plan n (r ∷ ps) p q d (inr m) (inr k) e = same_id_same_plan r.id ps p q d.1 m k e

pub In-All : {A : Type 0} (P : A → Type 0) (xs : List A) (x : A) → All P xs → In x xs → P x
In-All P [] x a m = absurd m
In-All P (y ∷ ys) x a (inl e) = subst P (sym e) a.0
In-All P (y ∷ ys) x a (inr m) = In-All P ys x a.1 m

pub Numbered-get :
    (id k : ℕ) (ts : List PlannedTransfer) (i : ℕ) (t : PlannedTransfer)
    → Numbered id k ts
    → get_elem? ts i ≡ some t
    → (t.memo ≡ build_memo id (k + i)) × (i < length ts)
Numbered-get id k [] i t n e = cc
Numbered-get id k (u ∷ ts) zero t n e = let here : k + 0 ≡ k = omega arith in rw here (ground arith)
Numbered-get id k (u ∷ ts) (suc i) t n e =
    let there : k + suc i ≡ k + 1 + i = omega arith in
    let found = Numbered-get id (k + 1) ts i t n.1 e in rw there (found.0, omega arith)

status-cases :
    (s : TransferStatus)
    → (s ≡ TransferStatus.pending) ⊎ ((block : ℕ) × (s ≡ TransferStatus.sent block))
status-cases TransferStatus.pending = inl refl
status-cases (TransferStatus.sent block) = inr (block, refl)

-- The transfer that the loop picks, in the plan as it was installed.
pub first_pending-get :
    (k : ℕ) (ts : List PlannedTransfer) (i : ℕ) (t : PlannedTransfer)
    → first_pending k ts ≡ some (i, t)
    → (j : ℕ) × (get_elem? (map unsent ts) j ≡ some (unsent t))
unfolding first_pending
first_pending-get k [] i t e = cc
first_pending-get k (u ∷ ts) i t e = elim (status-cases u.status) [
  | inl waits ↦ (0, ground arith)
  | inr (block, gone) ↦
      let found = first_pending-get (k + 1) ts i t (ground arith) in (suc found.0, found.1)
]
