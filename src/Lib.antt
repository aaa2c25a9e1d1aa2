-- ===== src/Lib.antt =====
-- Jupiter Faucet Suite: the payout logic of its canisters.
--
-- The suite is a set of Internet Computer canisters. The disburser (canisters/disburser) collects
-- a neuron's maturity and pays it out to three recipients; it runs on timers and on hints from
-- Event Horizon, one main tick at a time under a lease, and hands its control to a rescue
-- controller when payouts stop. The faucet (canisters/faucet) shares what it receives out among
-- commitments, and the relay (canisters/relay) tops up canisters and splits what is left.
--
-- Files, with the code that each is about:
--   Common      words of a fixed width, tests, lists
--   Lease       crates/ic-clients/src/timer_guard.rs: timer leases (Lease.Timer) and fenced ones
--               (Lease.Fenced); the lock cell and the generation are arguments
--   Ledger      the ledger's types, which the ICRC crates declare
--   Disburser   canisters/disburser/src: State is state.rs, Store its copies in the heap and the
--               stable cell, Split and Plan are logic.rs, Guard is MainGuard of scheduler/tick.rs,
--               Payout is scheduler/payout_plan.rs, Rescue is policy.rs and scheduler/rescue.rs,
--               Poke is scheduler/poke.rs, MainTick is the tick, its retry and the payout of a
--               hint in scheduler/tick.rs, Lifecycle is the installation and the upgrade in lib.rs
--   Memo        crates/memo-policy/src/lib.rs: the directive that a memo declares
--               (Memo.Directive), texts of principals and neurons, numbered subaccounts
--   Faucet      canisters/faucet/src: Shares is how much of a commitment counts in a round, and
--               its share of the pot, Classify what a commitment asks for, Accounting the job's
--               sums (all logic.rs); State is state.rs, Dispatch state/transfer_dispatch.rs and
--               the job's pending transfer, Transfer scheduler/cmc_notify.rs, Fallback and Drive
--               scheduler/cmc_notify_transfer.rs, with Drive.Resume the replies; Pot is about the
--               books of the active job; IndexHealth is scheduler/index_health.rs, without the
--               probes that await the index
--   Relay       canisters/relay/src/logic.rs: Splitter is the splitter's plan, Conversion the size
--               of a top-up, Allocation the plan that spends all on cycles, Topups the plan that
--               gives each target its wish, or by Proportional a part of it, Surplus the equal
--               shares, Commitment what is staked with the faucet, Configuration the checks of a
--               configuration
--
-- Asynchronous code is cut at its awaits. A phase (Disburser.Payout.Phase) holds what a suspended
-- call waits for and the locals it keeps; a handler runs from one reply to the next await, on the
-- state of that time, which other calls may have changed. An interleaving is a list of such steps.
--
-- Unsigned integers are natural numbers; saturating and checked operations are those of
-- Common.Words, with their bounds written out, and the theorems say where an argument has to be
-- below 2^64. Principals are numbers, an account's subaccount is the effective one.
-- Disburser.Payout.Drain runs a call on fuel; a call takes a message for the balance, one for the
-- fee and one for each transfer, and the completion theorem gives five. A driven transfer of the
-- faucet awaits at most seven replies. Relay.Proportional runs its rounds of remainders on fuel,
-- the amount that is missing: a round that is not the last hands out at least one.
--
-- Memos are lists of bytes, and the reading and printing of a principal's text is a parameter
-- (Memo.Principals). A trap undoes the changes of its message. The counters of failed observations
-- are u8 and saturate at 255.
--
-- Not modelled: the branches of the debug_api feature, which the production build leaves out;
-- logs; the clients' calls, whose replies are arguments; the generic ledger error's text; the
-- faucet's scan of commitments and the end of its job, its index probes and timers; the relay's
-- schedulers; the historian, sns-rewards, and the other canisters and crates that the files above
-- do not name.
pub mod Common
pub mod Disburser
pub mod Faucet
pub mod Lease
pub mod Ledger
pub mod Memo
pub mod Relay
