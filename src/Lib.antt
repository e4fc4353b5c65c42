-- ===== src/Lib.antt =====
-- The escrow program of Clustly, an Anchor program for Solana (programs/clustly-escrow/src).
--
-- A poster creates a task and pays the bounty of all its slots into the task's vault. Claimers
-- enrol, each taking a slot, submit, and are paid out of the vault, less a fee, when the poster
-- approves or stays silent for fourteen days. The poster may reject, three times at most, and then
-- the bounty of the slot returns to him; a rejected claimer may call for the admin, who rules for
-- one side, and who is taken to rule for the claimer after fourteen days of silence. A task whose
-- claims are all settled is closed, and the rest of its vault refunded.
--
-- The program (all paths below programs/clustly-escrow/src):
--   * Error: errors.rs, with the outcomes of an instruction;
--   * State: state.rs, the accounts EscrowConfig, EscrowTask and EscrowClaim, the status bytes and
--     compute_fee_split;
--   * Platform: what the program calls and does not hold, as a record that every instruction takes:
--     address derivation, token transfers, closing and creating token accounts. Platform.Laws has
--     their documented behaviour, Platform.Sample a concrete instance;
--   * World: the accounts by address, the token accounts, and the constraints of Anchor;
--   * Config, Fees, Dispute: instructions/config.rs, fees.rs and dispute.rs;
--   * Task.Initialize, Task.Cancel, Task.Close: instructions/task.rs;
--   * Claim.Enroll, Claim.Submit, Claim.Approve, Claim.Reject: instructions/claim.rs;
--   * Payout, Closing: the code that several handlers hold in the same words;
--   * Program: lib.rs, the 17 entry points.
-- Each instruction is a function that checks its accounts (`..._accounts`, from the struct that
-- derives Accounts) and a handler of the source's name, from one World to the result of the next.
--
-- The specification and the proofs:
--   * Promise: what each instruction promises, with its arguments and apart from the code; Kept
--     relates the code to it;
--   * Contract: the kinds of transitions that the invariants tell apart; Refines sorts what the
--     promises say into them;
--   * System: the chain over time, with any instructions by anybody, and other programs' transfers;
--   * Slots: the slot counters against the claims; Custody: the vaults against the slots;
--   * Lifecycle: the diagram of claim statuses; Locks: active claims and the ends of a task;
--   * Payments: the amounts of a payout, and when it succeeds;
--   * Scenario, Tests: a run on the sample platform, and the theorems at its states.
--
-- A public key is a number, a byte string a list of numbers. Amounts and counters are natural
-- numbers with the checks of the source's widths; timestamps are signed integers, with the i64
-- saturation and overflow of the source. There are no loops, so that no fuel is needed.
--
-- Only wallets sign: a signer is no account of the program and no address that it derives. Other
-- programs may do what they like to the token accounts, except take from those that the program's
-- accounts own.
--
-- Not modelled: rent and lamports, log messages (but for the subtraction in one, which can panic),
-- the checks of program ids and of writability, and the order in which Anchor reports several
-- violated constraints at once.
pub mod Base
pub mod Error
pub mod State
pub mod Platform
pub mod World
pub mod Payout
pub mod Closing
pub mod Config
pub mod Task
pub mod Claim
pub mod Dispute
pub mod Fees
pub mod Program
pub mod Contract
pub mod Refines
pub mod Slots
pub mod Custody
pub mod System
pub mod Lifecycle
pub mod Locks
pub mod Payments
pub mod Promise
pub mod Kept
pub mod Scenario
pub mod Tests
