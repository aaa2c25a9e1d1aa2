-- ===== src/Faucet/Drive/Ending.antt =====
-- Runs of a driven transfer, with other calls in between.
use jupiter_faucet_suite.Common.{
  Bool-cases, ℕ, ◌+◌, ◌-◌, ◌≤◌, ◌≡◌, refl, inl, inr, Bool, true, false, Option, none, some, List,
  [], ◌∷◌, ◌&&◌, arith, length,
}
use jupiter_faucet_suite.Faucet.Drive.Turns.{on_notify-AtMost, on_attempt-AtMost}
use jupiter_faucet_suite.Ledger.{Account}
use jupiter_faucet_suite.Faucet.Transfer.{
  allocate_created_at_time_nanos, stage_pending_transfer, pending_transfer_matches,
}
use jupiter_faucet_suite.Faucet.State.{PendingTransferPhase, PendingNotification, PendingTransfer}
use jupiter_faucet_suite.Faucet.Dispatch.{current_pending_transfer, Store}
use jupiter_faucet_suite.Faucet.Drive.{
  by_phase, drive_current, deposit_account_for_pending, after_accepted, transfer_arg, send_to,
  Locals, drive_loop, is_current, complete, Call, Phase, Replies, Attempt, transfer_once,
}
use jupiter_faucet_suite.Faucet.Drive.Resume.{
  invariant_broken, stage_and_drive, fenced, commit, resume, drive_pending_transfer,
  send_and_notify,
}
use jupiter_faucet_suite.Faucet.Drive.Termination.{
  after_accepted-AtMost, send_any-AtMost, attempt_transfer-AtMost, AtMost-mono, AtMost,
  replies_left,
}

-- What other calls make of the store while this one waits, and what it is answered.
pub record Step : Type 0 where
  pub others : Store → Store
  pub replies : Replies

unfoldable pub run : Call → List Step → Store × Phase → Store × Phase
run c [] (s, p) = (s, p)
run c (t ∷ ts) (s, p) = run c ts (resume c t.replies p (t.others s))

abbrev pub is_over : Phase → Bool
is_over (Phase.finished outcome) = true
is_over Phase.trapped = true
is_over p = false

commit-AtMost :
    (n : ℕ) (before : Store) (r : Store × Phase) → AtMost n r → AtMost n (commit before r)
unfolding AtMost replies_left
commit-AtMost n before (s, Phase.trapped) h = h
commit-AtMost n before (s, Phase.finished b) h = h
commit-AtMost n before (s, Phase.awaiting_transfer l j e lease prior a arg) h = h
commit-AtMost n before (s, Phase.awaiting_claim l j e id) h = h
commit-AtMost n before (s, Phase.awaiting_notify l j e f) h = h

fenced-AtMost :
    (n : ℕ) (lease : Option ℕ) (job_id : ℕ) (e : PendingTransfer) (s : Store) (next : Store × Phase)
    → AtMost n next
    → AtMost n (fenced lease job_id e s next)
unfolding AtMost replies_left
fenced-AtMost n lease job_id e s next h =
    elim (Bool-cases (is_current lease s && pending_transfer_matches job_id e s)) [
      | inl v ↦ rw v h
      | inr v ↦ rw v (omega arith)
    ]

complete-AtMost :
    (n : ℕ) (c : Call) (j : ℕ) (e : PendingTransfer) (s : Store) → AtMost n (complete c j e s)
unfolding AtMost replies_left complete
complete-AtMost n c j e s = omega arith

over-AtMost : (n : ℕ) (s : Store) (p : Phase) → is_over p ≡ true → AtMost n (s, p)
unfolding AtMost replies_left
over-AtMost n s (Phase.finished b) h = omega arith
over-AtMost n s Phase.trapped h = omega arith
over-AtMost n s (Phase.awaiting_transfer l j e lease prior a arg) h = absurd cc
over-AtMost n s (Phase.awaiting_claim l j e id) h = absurd cc
over-AtMost n s (Phase.awaiting_notify l j e f) h = absurd cc

-- Every reply brings the end nearer.
resume-AtMost :
    (c : Call) (r : Replies) (p : Phase) (s : Store) → AtMost (replies_left p - 1) (resume c r p s)
unfolding resume replies_left
resume-AtMost c r (Phase.awaiting_transfer l j e lease prior a arg) s = commit-AtMost _ s _ (
    fenced-AtMost _ lease j e s _ (
      AtMost-mono _ _ _ (ground arith)
        (on_attempt-AtMost c l j e lease prior a arg (transfer_once r.transfer) s)))
resume-AtMost c r (Phase.awaiting_claim l j e id) s =
    commit-AtMost 0 s _ (fenced-AtMost 0 l.lease j e s _ (complete-AtMost 0 c j e s))
resume-AtMost c r (Phase.awaiting_notify l j e none) s =
    commit-AtMost _ s _ (fenced-AtMost _ l.lease j e s _ (on_notify-AtMost c l j e none r.notify s))
resume-AtMost c r (Phase.awaiting_notify l j e (some f)) s =
    commit-AtMost _ s _
      (fenced-AtMost _ l.lease j e s _ (on_notify-AtMost c l j e (some f) r.notify s))
resume-AtMost c r (Phase.finished outcome) s = over-AtMost 0 s (Phase.finished outcome) refl
resume-AtMost c r Phase.trapped s = over-AtMost 0 s Phase.trapped refl

run-AtMost :
    (c : Call) (steps : List Step) (n : ℕ) (r : Store × Phase)
    → AtMost (n + length steps) r
    → AtMost n (run c steps r)
unfolding run AtMost
run-AtMost c [] n (s, p) h = omega arith
run-AtMost c (t ∷ ts) n (s, p) h =
    run-AtMost c ts n (resume c t.replies p (t.others s))
      (omega (arith, resume-AtMost c t.replies p (t.others s)))

AtMost-is_over : (r : Store × Phase) → AtMost 0 r → is_over r.1 ≡ true
unfolding AtMost replies_left
AtMost-is_over (s, Phase.finished b) h = refl
AtMost-is_over (s, Phase.trapped) h = refl
AtMost-is_over (s, Phase.awaiting_transfer l j e lease prior a arg) h = absurd (grind arith)
AtMost-is_over (s, Phase.awaiting_claim l j e id) h = absurd (grind arith)
AtMost-is_over (s, Phase.awaiting_notify l j e none) h = absurd (grind arith)
AtMost-is_over (s, Phase.awaiting_notify l j e (some f)) h = absurd (grind arith)

loop-AtMost : (c : Call) (loc : Locals) (s : Store) → AtMost 7 (drive_loop c loc s)
unfolding drive_loop
loop-AtMost c loc s = currents (current_pending_transfer s)
  where
    sends : (j : ℕ) (e : PendingTransfer) (to : Option Account) → AtMost 7 (send_to c loc j e s to)
    sends j e none = over-AtMost 7 s Phase.trapped refl
    sends j e (some to) =
        attempt_transfer-AtMost loc j e s.st.main_lock_state_ts Attempt.attempt_0
          (transfer_arg c e to s) s 7 (ground arith)

    phases :
        (j : ℕ) (e : PendingTransfer) (p : PendingTransferPhase) → AtMost 7 (by_phase c loc s j e p)
    phases j e PendingTransferPhase.awaiting_transfer =
        send_any-AtMost 7 c loc j e s (sends j e (deposit_account_for_pending c e.notification))
    phases j e PendingTransferPhase.transfer_accepted =
        AtMost-mono _ 7 (after_accepted c loc j e s) (ground arith)
          (after_accepted-AtMost c loc j e s)

    currents : (o : Option (ℕ × PendingTransfer)) → AtMost 7 (drive_current c loc s o)
    currents none = over-AtMost 7 s (Phase.finished true) refl
    currents (some (j, e)) = phases j e e.phase

drive-AtMost : (c : Call) (s : Store) → AtMost 7 (drive_pending_transfer c s)
unfolding drive_pending_transfer
drive-AtMost c s = commit-AtMost 7 s _ (loop-AtMost c _ s)

send_and_notify-AtMost :
    (c : Call) (pending : PendingNotification) (s : Store) → AtMost 7 (send_and_notify c pending s)
unfolding send_and_notify
send_and_notify-AtMost c pending s = elim (Bool-cases (invariant_broken pending s)) [
  | inl v ↦ rw v (over-AtMost 7 _ (Phase.finished false) refl)
  | inr v ↦ rw v (staging (allocate_created_at_time_nanos c.now_nanos s))
]
  where
    staging : (o : Option (Store × ℕ)) → AtMost 7 (stage_and_drive c pending s o)
    staging none = over-AtMost 7 s Phase.trapped refl
    staging (some (t, at)) =
        commit-AtMost 7 s _ (drive-AtMost c (stage_pending_transfer pending at t))

-- Whatever other calls do in between, driving the pending transfer is over after at most seven
-- replies, and so is sending a new one.
pub drive_ends :
    (c : Call) (pending : PendingNotification) (s : Store) (steps : List Step)
    → 7 ≤ length steps
    → (is_over (run c steps (drive_pending_transfer c s)).1 ≡ true)
      × (is_over (run c steps (send_and_notify c pending s)).1 ≡ true)
drive_ends c pending s steps h = (
  AtMost-is_over _ (
      run-AtMost c steps 0 _ (AtMost-mono 7 (0 + length steps) _ (omega arith) (drive-AtMost c s))),
  AtMost-is_over _ (
      run-AtMost c steps 0 _
        (AtMost-mono 7 (0 + length steps) _ (omega arith) (send_and_notify-AtMost c pending s))),
)
