-- ===== src/Faucet/Pot/Answers.antt =====
-- What the books keep over the ledger's answer to a suspended transfer.
use jupiter_faucet_suite.Common.{
  ◌⊎◌, u64_max, ℕ, ◌≤◌, ◌≡◌, refl, inl, inr, Bool, true, false, Option, none, some, List, [], ◌∷◌,
  ◌&&◌, arith, Bool-cases,
}
use jupiter_faucet_suite.Faucet.Drive.Closed.{is_proper}
use jupiter_faucet_suite.Faucet.Pot.{pot_e8s, committed_e8s, WithinPot}
use jupiter_faucet_suite.Faucet.Drive.Unsent.{is_definite}
use jupiter_faucet_suite.Faucet.Dispatch.Matching.{at_job_with}
use jupiter_faucet_suite.Ledger.{TransferArg}
use jupiter_faucet_suite.Faucet.Fallback.{
  record_accepted_transfer_with_unusable_block_index,
  reserve_then_clear_ambiguous_awaiting_transfer, is_awaiting,
}
use jupiter_faucet_suite.Faucet.Pot.Kept.{
  CoversJob, unusable-Covers, reserved-Covers, noted-Covers, matched-Covers, latched-Covers,
  incremented-Covers, completed-Covers, Covers,
}
use jupiter_faucet_suite.Faucet.Drive.Resume.{
  on_attempt, next_turn, unusable_block, on_marked, fenced, commit, on_uncertain, resume,
}
use jupiter_faucet_suite.Faucet.Transfer.{
  pending_transfer_matches, note_attempted_beneficiary, mark_pending_transfer_accepted,
}
use jupiter_faucet_suite.Faucet.Dispatch.{set_pending_transfer_dispatch, Store}
use jupiter_faucet_suite.Faucet.State.{requires_cmc_notify, TransferKind, PendingTransfer}
use jupiter_faucet_suite.Faucet.Drive.{
  transfer_once, dispatched, TransferAttemptOutcome, is_current, finished_with, claim_or_complete,
  notify, Replies, Phase, Attempt, set_dispatch_started, complete, attempt_transfer, after_accepted,
  Locals, Call,
}

module _ (n p : ℕ) (word : p ≤ u64_max) where
  set_dispatch_started-Covers :
      (j : ℕ) (e : PendingTransfer) (lease : Option ℕ) (b : Bool) (s : Store)
      → Covers n p word s
      → Covers n p word (set_dispatch_started j e lease b s).0
  unfolding set_dispatch_started set_pending_transfer_dispatch Covers
  set_dispatch_started-Covers j e lease b s h =
      elim (Bool-cases (is_current lease s && pending_transfer_matches j e s)) [
        | inl v ↦ rw v h
        | inr v ↦ rw v h
      ]

  dispatched-Covers :
      (loc : Locals) (j : ℕ) (e : PendingTransfer) (lease : Option ℕ) (prior : Bool) (a : Attempt)
      (arg : TransferArg) (r : Store × Bool)
      → Covers n p word r.0
      → Covers n p word (dispatched loc j e lease prior a arg r).0
  dispatched-Covers loc j e lease prior a arg (s, true) h = h
  dispatched-Covers loc j e lease prior a arg (s, false) h = h

  finished_with-Covers :
      (r : Store × Bool) → Covers n p word r.0 → Covers n p word (finished_with r).0
  finished_with-Covers (s, b) h = h

  next_turn-Covers :
      (loc : Locals) (j : ℕ) (e : PendingTransfer) (lease : Option ℕ) (arg : TransferArg)
      (s : Store) (a : Attempt)
      → is_awaiting e.phase ≡ true
      → Covers n p word s
      → Covers n p word (next_turn loc j e lease arg s a).0
  unfolding attempt_transfer on_uncertain
  next_turn-Covers loc j e lease arg s Attempt.attempt_0 w h =
      dispatched-Covers loc j e lease _ Attempt.attempt_1 arg
        (set_dispatch_started j e lease true s) (set_dispatch_started-Covers j e lease true s h)
  next_turn-Covers loc j e lease arg s Attempt.attempt_1 w h =
      finished_with-Covers (reserve_then_clear_ambiguous_awaiting_transfer j e s)
        (reserved-Covers n p word j e s w h)

  claim_or_complete-Covers :
      (c : Call) (loc : Locals) (j : ℕ) (e : PendingTransfer) (s : Store) (kind : TransferKind)
      (id : Option ℕ)
      → is_awaiting e.phase ≡ false
      → Covers n p word s
      → Covers n p word (claim_or_complete c loc j e s kind id).0
  unfolding complete
  claim_or_complete-Covers c loc j e s TransferKind.neuron_stake (some id) w h = h
  claim_or_complete-Covers c loc j e s TransferKind.neuron_stake none w h =
      completed-Covers n p word j e c.now_secs s w h
  claim_or_complete-Covers c loc j e s TransferKind.beneficiary id w h =
      completed-Covers n p word j e c.now_secs s w h
  claim_or_complete-Covers c loc j e s TransferKind.cycles_top_up_raw_fallback id w h =
      completed-Covers n p word j e c.now_secs s w h
  claim_or_complete-Covers c loc j e s TransferKind.raw_icp id w h =
      completed-Covers n p word j e c.now_secs s w h
  claim_or_complete-Covers c loc j e s TransferKind.remainder_to_relay id w h =
      completed-Covers n p word j e c.now_secs s w h

  after_accepted-Covers :
      (c : Call) (loc : Locals) (j : ℕ) (e : PendingTransfer) (s : Store)
      → is_awaiting e.phase ≡ false
      → Covers n p word s
      → Covers n p word (after_accepted c loc j e s).0
  unfolding after_accepted notify
  after_accepted-Covers c loc j e s w h =
      elim (Bool-cases (requires_cmc_notify e.notification.kind)) [
        | inl v ↦ rw v (
            incremented-Covers n p word j e (note_attempted_beneficiary j e s)
              (noted-Covers n p word j e s h))
        | inr v ↦ rw v (claim_or_complete-Covers c loc j e s e.notification.kind _ w h)
      ]

  -- A transfer that was marked is not awaited any more.
  abbrev Marked : Store × Option PendingTransfer → Type 0
  Marked (s, none) = Covers n p word s
  Marked (s, some sent) = Covers n p word s × (is_awaiting sent.phase ≡ false)

  mark-Marked :
      (j : ℕ) (e : PendingTransfer) (b : ℕ) (s : Store)
      → is_awaiting e.phase ≡ true
      → Covers n p word s
      → Marked (mark_pending_transfer_accepted j e b s)
  unfolding mark_pending_transfer_accepted
  mark-Marked j e b s w h =
      at_job_with Marked j e (s, none) _ s h
        (λ job. λ m. (matched-Covers n p word j e b s job w m h, refl))

  on_marked-Covers :
      (c : Call) (loc : Locals) (j : ℕ) (r : Store × Option PendingTransfer)
      → Marked r
      → Covers n p word (on_marked c loc j r).0
  on_marked-Covers c loc j (s, none) h = h
  on_marked-Covers c loc j (s, some sent) h = after_accepted-Covers c loc j sent s h.1 h.0

  unusable_block-Covers :
      (r : Store × Bool) → Covers n p word r.0 → Covers n p word (unusable_block r).0
  unusable_block-Covers (s, true) h = latched-Covers n p word _ s h
  unusable_block-Covers (s, false) h = h

  on_attempt-Covers :
      (c : Call) (loc : Locals) (j : ℕ) (e : PendingTransfer) (lease : Option ℕ) (prior : Bool)
      (a : Attempt) (arg : TransferArg) (o : TransferAttemptOutcome) (s : Store)
      → is_awaiting e.phase ≡ true
      → Covers n p word s
      → (is_definite o ≡ true) ⊎ Covers n p word (on_attempt c loc j e lease prior a arg o s).0
  on_attempt-Covers c loc j e lease prior a arg (TransferAttemptOutcome.accepted b) s w h =
      inr (
        on_marked-Covers c loc j (mark_pending_transfer_accepted j e b s) (mark-Marked j e b s w h))
  on_attempt-Covers c loc j e lease prior a arg (TransferAttemptOutcome.definite_no_debit r) s w h =
      inl refl
  on_attempt-Covers c loc j e lease prior a arg TransferAttemptOutcome.uncertain s w h =
      inr (next_turn-Covers loc j e lease arg s a w h)
  on_attempt-Covers c loc j e lease prior a arg
        TransferAttemptOutcome.accepted_with_unusable_block_index s w h =
      inr (
        unusable_block-Covers (record_accepted_transfer_with_unusable_block_index j e s)
          (unusable-Covers n p word j e s w h))

  commit-Covers :
      (before : Store) (r : Store × Phase)
      → Covers n p word before
      → Covers n p word r.0
      → Covers n p word (commit before r).0
  commit-Covers before (s, Phase.trapped) hb h = hb
  commit-Covers before (s, Phase.finished b) hb h = h
  commit-Covers before (s, Phase.awaiting_transfer l j e lease prior a arg) hb h = h
  commit-Covers before (s, Phase.awaiting_claim l j e id) hb h = h
  commit-Covers before (s, Phase.awaiting_notify l j e f) hb h = h

  fenced-Covers :
      (lease : Option ℕ) (j : ℕ) (e : PendingTransfer) (s : Store) (next : Store × Phase)
      → Covers n p word s
      → Covers n p word next.0
      → Covers n p word (fenced lease j e s next).0
  fenced-Covers lease j e s next hs h =
      elim (Bool-cases (is_current lease s && pending_transfer_matches j e s)) [
        | inl v ↦ rw v h
        | inr v ↦ rw v hs
      ]

  pub answered-Covers :
      (c : Call) (r : Replies) (loc : Locals) (j : ℕ) (e : PendingTransfer) (lease : Option ℕ)
      (prior : Bool) (a : Attempt) (arg : TransferArg) (s : Store)
      → is_awaiting e.phase ≡ true
      → Covers n p word s
      → (is_definite (transfer_once r.transfer) ≡ true)
        ⊎ Covers n p word (resume c r (Phase.awaiting_transfer loc j e lease prior a arg) s).0
  unfolding resume
  answered-Covers c r loc j e lease prior a arg s w h =
      elim (on_attempt-Covers c loc j e lease prior a arg (transfer_once r.transfer) s w h) [
        | inl d ↦ inl d
        | inr k ↦ inr (commit-Covers s _ h (fenced-Covers lease j e s _ h k))
      ]

abbrev pub all_proper : List (Call × Phase) → Bool
all_proper [] = true
all_proper ((c, p) ∷ calls) = is_proper p && all_proper calls

-- An answer to a suspended transfer definitely rejects the attempt, or what the books held or
-- reserved is still there after the message, and within the same pot.
abbrev pub Keeps : Replies → Store → Call × Phase → Type 0
Keeps r s (c, Phase.awaiting_transfer loc j e lease prior a arg) =
    (is_definite (transfer_once r.transfer) ≡ true)
    ⊎ CoversJob (committed_e8s s.st.active_payout_job) (pot_e8s s.st.active_payout_job)
        (resume c r (Phase.awaiting_transfer loc j e lease prior a arg) s).0.st.active_payout_job
Keeps r s (c, Phase.awaiting_claim loc j e id) = Unit
Keeps r s (c, Phase.awaiting_notify loc j e first) = Unit
Keeps r s (c, Phase.finished b) = Unit
Keeps r s (c, Phase.trapped) = Unit

abbrev pub AllKeep : Replies → Store → List (Call × Phase) → Type 0
AllKeep r s [] = Unit
AllKeep r s (call ∷ calls) = Keeps r s call × AllKeep r s calls

answer-Keeps :
    (r : Replies) (s : Store) (c : Call) (p : Phase)
    → pot_e8s s.st.active_payout_job ≤ u64_max
    → is_proper p ≡ true
    → WithinPot s
    → Keeps r s (c, p)
unfolding WithinPot Covers
answer-Keeps r s c (Phase.awaiting_transfer loc j e lease prior a arg) u w h =
    answered-Covers (committed_e8s s.st.active_payout_job) (pot_e8s s.st.active_payout_job) u c r
      loc j e lease prior a arg s w (omega arith, h, refl)
answer-Keeps r s c (Phase.awaiting_claim loc j e id) u w h = tt
answer-Keeps r s c (Phase.awaiting_notify loc j e first) u w h = tt
answer-Keeps r s c (Phase.finished b) u w h = tt
answer-Keeps r s c Phase.trapped u w h = tt

pub answers-AllKeep :
    (r : Replies) (s : Store) (calls : List (Call × Phase))
    → pot_e8s s.st.active_payout_job ≤ u64_max
    → all_proper calls ≡ true
    → WithinPot s
    → AllKeep r s calls
answers-AllKeep r s [] u w h = tt
answers-AllKeep r s ((c, p) ∷ calls) u w h =
    (answer-Keeps r s c p u (ground arith) h, answers-AllKeep r s calls u (ground arith) h)
