-- ===== src/Ledger.antt =====
-- The ICRC-1 values that the canisters build and match: accounts, transfer arguments and transfer
-- errors. They come from the crate icrc_ledger_types, which is outside the repository; only the
-- fields and the cases that the sources name are here.
use jupiter_faucet_suite.Common.{ℕ, Bool, Option, List, ◌==◌, ◌&&◌}

-- A principal is only compared, so a number names it.
abbrev pub Principal : Type 0
Principal = ℕ

-- An account as its equality reads it: the owner, and the effective subaccount as the number that
-- its 32 bytes spell, so that no subaccount and the all-zero one are the same account.
pub record Account : Type 0 where
  pub owner : Principal
  pub subaccount : ℕ

abbrev pub account_eq : Account → Account → Bool
account_eq a b = a.owner == b.owner && a.subaccount == b.subaccount

pub record TransferArg : Type 0 where
  pub from_subaccount : Option ℕ
  pub to : Account
  pub fee : Option ℕ
  pub created_at_time : Option ℕ
  pub memo : Option (List ℕ)
  pub amount : ℕ

pub data TransferError : Type 0 where
  bad_fee bad_burn insufficient_funds created_in_future duplicate : ℕ → TransferError
  too_old temporarily_unavailable generic_error : TransferError

-- What a call of `icrc1_transfer` comes back with: a block, a typed error, or a failed call.
pub data TransferReply : Type 0 where
  block : ℕ → TransferReply
  rejected : TransferError → TransferReply
  call_failed : TransferReply
