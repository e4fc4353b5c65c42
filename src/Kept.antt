-- ===== src/Kept.antt =====
-- The code of all instructions (lib.rs) against their promises.
pub mod Steps
pub mod Admin
pub mod Funding
pub mod Tasks
pub mod Claims
pub mod Rejections
pub mod Payouts
use clustly_solana_escrow.Base.{◌≡◌}
use clustly_solana_escrow.Error.{ok}
use clustly_solana_escrow.Platform.{Platform}
use clustly_solana_escrow.World.{World, Env}
use clustly_solana_escrow.Program.{
  Instruction, process, initialize_config, update_admin, update_fee, update_mint, initialize_task,
  cancel_before_enroll, close_task, auto_cancel_task, enroll, submit, approve_claim, reject_claim,
  auto_approve, open_dispute, resolve_dispute, auto_resolve_dispute, withdraw_fees,
}
use clustly_solana_escrow.Promise.{Promise}
use Admin.{
  initialize_config-ConfigCreated, update_admin-AdminReplaced, update_fee-FeeReplaced,
  update_mint-MintReplaced, withdraw_fees-FeesWithdrawn,
}
use Funding.{initialize_task-TaskFunded}
use Rejections.{reject_claim-ClaimRejected}
use Tasks.{cancel_before_enroll-TaskWithdrawn, close_task-TaskClosed, auto_cancel_task-TaskExpired}
use Claims.{enroll-ClaimEnrolled, submit-ClaimSubmitted, open_dispute-ClaimDisputed}
use Payouts.{
  approve_claim-ClaimApproved, auto_approve-ClaimAutoApproved, auto_resolve_dispute-DisputeExpired,
  resolve_dispute-DisputeResolved,
}

-- Every instruction that succeeds has kept the promise of that instruction with its arguments: the
-- signatures, the accounts, the statuses, limits and times that it needs, each transfer with its
-- source, its target and its amount, and all that is written.
pub process-Promise :
    (p : Platform) (env : Env) (w w' : World) (i : Instruction)
    → process p env w i ≡ ok w'
    → Promise p env w w' i
unfolding process Promise
process-Promise p env w w' (initialize_config a admin fee_bps) h =
    initialize_config-ConfigCreated p env w w' a admin fee_bps h
process-Promise p env w w' (update_admin a k) h = update_admin-AdminReplaced p env w w' a k h
process-Promise p env w w' (update_fee a n) h = update_fee-FeeReplaced p env w w' a n h
process-Promise p env w w' (update_mint a) h = update_mint-MintReplaced p env w w' a h
process-Promise p env w w' (initialize_task a args) h =
    initialize_task-TaskFunded p env w w' a args h
process-Promise p env w w' (cancel_before_enroll a) h =
    cancel_before_enroll-TaskWithdrawn p env w w' a h
process-Promise p env w w' (close_task a) h = close_task-TaskClosed p env w w' a h
process-Promise p env w w' (auto_cancel_task a) h = auto_cancel_task-TaskExpired p env w w' a h
process-Promise p env w w' (enroll a claim_id) h = enroll-ClaimEnrolled p env w w' a claim_id h
process-Promise p env w w' (submit a hash) h = submit-ClaimSubmitted p env w w' a hash h
process-Promise p env w w' (approve_claim a) h = approve_claim-ClaimApproved p env w w' a h
process-Promise p env w w' (reject_claim a) h = reject_claim-ClaimRejected p env w w' a h
process-Promise p env w w' (auto_approve a) h = auto_approve-ClaimAutoApproved p env w w' a h
process-Promise p env w w' (open_dispute a) h = open_dispute-ClaimDisputed p env w w' a h
process-Promise p env w w' (resolve_dispute a favor) h =
    resolve_dispute-DisputeResolved p env w w' a favor h
process-Promise p env w w' (auto_resolve_dispute a) h =
    auto_resolve_dispute-DisputeExpired p env w w' a h
process-Promise p env w w' (withdraw_fees a amount) h =
    withdraw_fees-FeesWithdrawn p env w w' a amount h
