-- ===== src/Faucet/Drive/Displaced.antt =====
-- A reply that comes after the lock or the pending transfer has changed.
use jupiter_faucet_suite.Common.{
  is_none, not, ℕ, ◌≡◌, ◌≢◌, refl, ◌⊎◌, inl, inr, true, false, Option, some, ◌&&◌, Bool-cases,
  arith, option_eq_iff,
}
use jupiter_faucet_suite.Faucet.Dispatch.Matching.{matching_current}
use jupiter_faucet_suite.Faucet.State.{PendingTransfer}
use jupiter_faucet_suite.Faucet.Dispatch.{Store, current_pending_transfer, job_with}
use jupiter_faucet_suite.Faucet.Transfer.{pending_transfer_matches}
use jupiter_faucet_suite.Faucet.Drive.{Call, Phase, Replies, is_current}
use jupiter_faucet_suite.Faucet.Drive.Resume.{fenced, commit, resume}

-- The lock is not the captured one, or the pending transfer is another.
abbrev pub Lost : Option ℕ → ℕ → PendingTransfer → Store → Type 0
Lost lease j e s = (s.st.main_lock_state_ts ≢ lease) ⊎ (current_pending_transfer s ≢ some (j, e))

-- What the suspended call counts on is lost; a call that has ended counts on nothing.
abbrev pub Displaced : Phase → Store → Type 0
Displaced (Phase.awaiting_transfer loc j e lease prior a arg) s = Lost lease j e s
Displaced (Phase.awaiting_claim loc j e id) s = Lost loc.lease j e s
Displaced (Phase.awaiting_notify loc j e first) s = Lost loc.lease j e s
Displaced (Phase.finished outcome) s = ⊥
Displaced Phase.trapped s = ⊥

fence_closed :
    (lease : Option ℕ) (j : ℕ) (e : PendingTransfer) (s : Store)
    → Lost lease j e s
    → (is_current lease s && pending_transfer_matches j e s) ≡ false
unfolding pending_transfer_matches
fence_closed lease j e s lost =
    elim (Bool-cases (is_current lease s && pending_transfer_matches j e s)) [
      | inr v ↦ v
      | inl v ↦
          let k : is_current lease s ≡ true = ground (arith, v) in
          let w : not (is_none (job_with j e s)) ≡ true = ground (arith, v) in
          elim lost [
            | inl d ↦ absurd (d ((option_eq_iff s.st.main_lock_state_ts lease).0 k))
            | inr d ↦ absurd (d (matching_current j e s w))
          ]
    ]

displaced_fenced :
    (lease : Option ℕ) (j : ℕ) (e : PendingTransfer) (s : Store) (next : Store × Phase)
    → Lost lease j e s
    → commit s (fenced lease j e s next) ≡ (s, Phase.finished false)
displaced_fenced lease j e s next lost = rw (fence_closed lease j e s lost) refl

-- A suspended call whose lock or pending transfer has changed by the time of its reply, whatever
-- the reply is, changes nothing and ends without success.
pub resume-Displaced :
    (c : Call) (r : Replies) (p : Phase) (s : Store)
    → Displaced p s
    → resume c r p s ≡ (s, Phase.finished false)
unfolding resume
resume-Displaced c r (Phase.awaiting_transfer l j e lease prior a arg) s d =
    displaced_fenced lease j e s _ d
resume-Displaced c r (Phase.awaiting_claim l j e id) s d = displaced_fenced l.lease j e s _ d
resume-Displaced c r (Phase.awaiting_notify l j e f) s d = displaced_fenced l.lease j e s _ d
resume-Displaced c r (Phase.finished b) s d = absurd d
resume-Displaced c r Phase.trapped s d = absurd d
