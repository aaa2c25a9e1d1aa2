-- ===== src/Faucet/Drive/Unsent.antt =====
-- When a raw fallback may replace a beneficiary's transfer.
use jupiter_faucet_suite.Common.{ℕ, ◌≡◌, Bool, true, false, some}
use jupiter_faucet_suite.Faucet.State.{PendingTransfer, TransferKind}
use jupiter_faucet_suite.Faucet.Dispatch.{Store}
use jupiter_faucet_suite.Faucet.Drive.{dispatched, Phase, TransferAttemptOutcome}

-- Whether a suspended call waits for the transfer of a raw fallback.
abbrev pub sends_fallback : Phase → Bool
sends_fallback (Phase.awaiting_transfer l j e lease prior a arg) = elim e.notification.kind [
  | TransferKind.cycles_top_up_raw_fallback ↦ true
  | _ ↦ false
]
sends_fallback p = false

abbrev pub is_definite : TransferAttemptOutcome → Bool
is_definite (TransferAttemptOutcome.definite_no_debit retryable) = true
is_definite outcome = false

Unsent : Store × Phase → Type 0
Unsent r = sends_fallback r.1 ≡ false

-- The dispatch record is of this transfer, and says that no attempt of it may have gone out.
abbrev pub Undispatched : ℕ → PendingTransfer → Store → Type 0
Undispatched j e s = s.dispatch ≡ some (record { job_id = j; pending = e; dispatched = false })
