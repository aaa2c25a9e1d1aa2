-- ===== src/Faucet/Pot/Driven.antt =====
-- The pot under any interleaving of driven transfers.
use jupiter_faucet_suite.Common.{
  ◌≤◌, u64_max, sat_add, checked_add, ℕ, ◌≡◌, refl, inl, inr, true, false, Option, none, some, List,
  [], ◌∷◌, ◌++◌, arith, Bool-cases,
}
use jupiter_faucet_suite.Faucet.Pot.Answers.{answers-AllKeep, AllKeep, all_proper}
use jupiter_faucet_suite.Faucet.Pot.Fallbacks.{
  reserved-WithinPot, unusable-WithinPot, refunded-WithinPot, rejected-WithinPot,
}
use jupiter_faucet_suite.Faucet.Pot.Changes.{
  incremented-WithinPot, noted-WithinPot, completed-WithinPot, marked-WithinPot, latched-WithinPot,
  clear-WithinPot,
}
use jupiter_faucet_suite.Faucet.State.{ActivePayoutJob, PendingNotification}
use jupiter_faucet_suite.Faucet.Dispatch.{
  current_pending_transfer, put_job, set_pending_transfer_dispatch, Store,
}
use jupiter_faucet_suite.Faucet.Transfer.{next_created_at_time, stage_pending_transfer}
use jupiter_faucet_suite.Faucet.Drive.{Call, Phase, Replies}
use jupiter_faucet_suite.Faucet.Drive.Resume.{
  stage_and_drive, passes_pot, invariant_broken, resume, drive_pending_transfer, send_and_notify,
}
use jupiter_faucet_suite.Faucet.Drive.Closed.{Closed, Good, is_proper}
use jupiter_faucet_suite.Faucet.Drive.Preserved.{
  commit-Closed, resume-Closed, drive_pending_transfer-Closed,
}
use jupiter_faucet_suite.Faucet.Pot.{pot_e8s, WithinPot}

WithinPot-Closed : Closed WithinPot
unfolding set_pending_transfer_dispatch WithinPot
WithinPot-Closed = record {
  set_dispatched = λ j. λ e. λ b. λ s. λ h. h;
  cleared = clear-WithinPot;
  marked = marked-WithinPot;
  rejected = rejected-WithinPot;
  refunded = refunded-WithinPot;
  unusable = unusable-WithinPot;
  reserved = reserved-WithinPot;
  latched = latched-WithinPot;
  completed = completed-WithinPot;
  noted = noted-WithinPot;
  incremented = incremented-WithinPot;
}

-- A job whose pot holds the new payout.
staged-WithinPot :
    (pending : PendingNotification) (at : ℕ) (job : ActivePayoutJob) (s : Store)
    → passes_pot (checked_add job.gross_outflow_e8s pending.gross_share_e8s) job.pot_start_e8s
      ≡ false
    → WithinPot (stage_pending_transfer pending at (put_job job s))
unfolding stage_pending_transfer set_pending_transfer_dispatch WithinPot
staged-WithinPot pending at job s v = ground arith

staging :
    (c : Call) (pending : PendingNotification) (s : Store)
    → WithinPot s
    → (o : Option ActivePayoutJob)
    → (elim o [
      | none ↦ false
      | some job ↦
          passes_pot (checked_add job.gross_outflow_e8s pending.gross_share_e8s) job.pot_start_e8s
    ])
      ≡ false
    → Good WithinPot (
        stage_and_drive c pending s (elim o [
          | none ↦ none
          | some job ↦ some (
            put_job
                (record job {
                  next_created_at_time_nanos = sat_add (next_created_at_time c.now_nanos job) 1;
                })
                s,
            next_created_at_time c.now_nanos job,
          )
        ]))
staging c pending s h none v = (h, refl)
staging c pending s h (some job) v =
    commit-Closed WithinPot-Closed s _ h
      (drive_pending_transfer-Closed WithinPot-Closed c _ (staged-WithinPot pending _ _ s v))

send-Good :
    (c : Call) (pending : PendingNotification) (s : Store)
    → WithinPot s
    → Good WithinPot (send_and_notify c pending s)
unfolding send_and_notify invariant_broken
send-Good c pending s h = elim (Bool-cases (invariant_broken pending s)) [
  | inl v ↦ rw v (latched-WithinPot _ s h, refl)
  | inr v ↦ rw v (staging c pending s h s.st.active_payout_job v)
]

-- The stores and the suspended calls that any interleaving reaches: a call drives the pending
-- transfer or sends a new one, a suspended one gets its reply, the lock changes hands.
pub data Reaches (start : Store) : Store → List (Call × Phase) → Type 0 where
  begins : Reaches start start []
  drives :
      (c : Call) {s : Store} {calls : List (Call × Phase)}
      → Reaches start s calls
      → Reaches start (drive_pending_transfer c s).0 ((c, (drive_pending_transfer c s).1) ∷ calls)
  sends :
      (c : Call) (pending : PendingNotification) {s : Store} {calls : List (Call × Phase)}
      → current_pending_transfer s ≡ none
      → Reaches start s calls
      → Reaches start (send_and_notify c pending s).0 ((c, (send_and_notify c pending s).1) ∷ calls)
  replies :
      (c : Call) (r : Replies) (p : Phase) (before after : List (Call × Phase)) {s : Store}
      → Reaches start s (before ++ (c, p) ∷ after)
      → Reaches start (resume c r p s).0 (before ++ (c, (resume c r p s).1) ∷ after)
  relocks :
      (lock : Option ℕ) {s : Store} {calls : List (Call × Phase)}
      → Reaches start s calls
      → Reaches start (record s { st = record s.st { main_lock_state_ts = lock } }) calls

all_proper-middle :
    (before after : List (Call × Phase)) (c : Call) (p : Phase)
    → all_proper (before ++ (c, p) ∷ after) ≡ true
    → is_proper p ≡ true
all_proper-middle [] after c p h = ground arith
all_proper-middle ((c', p') ∷ before) after c p h =
    all_proper-middle before after c p (ground arith)

all_proper-replace :
    (before after : List (Call × Phase)) (c : Call) (p q : Phase)
    → is_proper q ≡ true
    → all_proper (before ++ (c, p) ∷ after) ≡ true
    → all_proper (before ++ (c, q) ∷ after) ≡ true
all_proper-replace [] after c p q hq h = ground arith
all_proper-replace ((c', p') ∷ before) after c p q hq h =
    let rest : all_proper (before ++ (c, q) ∷ after) ≡ true =
      all_proper-replace before after c p q hq (ground arith) in
    ground arith

reached-WithinPot :
    (start s : Store) (calls : List (Call × Phase))
    → WithinPot start
    → Reaches start s calls
    → WithinPot s × (all_proper calls ≡ true)
unfolding WithinPot
reached-WithinPot start s calls h begins = (h, refl)
reached-WithinPot start _ _ h (drives c {s} {calls} r) =
    let k = reached-WithinPot start s calls h r in
    let g = drive_pending_transfer-Closed WithinPot-Closed c s k.0 in (g.0, ground (arith, g, k))
reached-WithinPot start _ _ h (sends c pending {s} {calls} v r) =
    let k = reached-WithinPot start s calls h r in
    let g = send-Good c pending s k.0 in (g.0, ground (arith, g, k))
reached-WithinPot start _ _ h (replies c rep p before after {s} r) =
    let k = reached-WithinPot start s (before ++ (c, p) ∷ after) h r in
    let g = resume-Closed WithinPot-Closed c rep p s (all_proper-middle before after c p k.1) k.0 in
    (g.0, all_proper-replace before after c p (resume c rep p s).1 g.1 k.1)
reached-WithinPot start _ _ h (relocks lock {s} {calls} r) =
    let k = reached-WithinPot start s calls h r in (k.0, k.1)

-- For any interleaving of calls that drive the pending transfer or, where there is none, send a new
-- one, of their replies and of changes of the lock, from books within the pot, and for a pot in u64:
-- the active job's recorded gross outflow and the gross share of its pending transfer that is not
-- accepted yet together stay within its pot; no suspended transfer is of a pending transfer that was
-- accepted before; and whatever answer a suspended transfer gets next, it definitely rejects this
-- attempt, or after its message this sum is not lower and still within the same pot.
pub interleaved-WithinPot :
    (start s : Store) (calls : List (Call × Phase)) (r : Replies)
    → WithinPot start
    → pot_e8s s.st.active_payout_job ≤ u64_max
    → Reaches start s calls
    → WithinPot s × (all_proper calls ≡ true) × AllKeep r s calls
interleaved-WithinPot start s calls r h u reaches =
    let k = reached-WithinPot start s calls h reaches in
    (k.0, k.1, answers-AllKeep r s calls u k.1 k.0)
