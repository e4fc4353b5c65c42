-- ===== src/Promise.antt =====
-- What each instruction promises if it succeeds, instruction by instruction and with its arguments:
-- whose signature it has, which accounts it has found, where the tokens go, and what is written.
-- Statuses are their bytes, limits and windows their numbers; of the code it takes the accounts and
-- the arguments, and no handler nor what a handler calls.
pub mod Terms
pub mod Admin
pub mod Tasks
pub mod Claims
use clustly_solana_escrow.Platform.{Platform}
use clustly_solana_escrow.World.{World, Env}
use clustly_solana_escrow.Program.{
  Instruction, initialize_config, update_admin, update_fee, update_mint, initialize_task,
  cancel_before_enroll, close_task, auto_cancel_task, enroll, submit, approve_claim, reject_claim,
  auto_approve, open_dispute, resolve_dispute, auto_resolve_dispute, withdraw_fees,
}
use Admin.{ConfigCreated, AdminReplaced, FeeReplaced, MintReplaced, FeesWithdrawn}
use Tasks.{TaskFunded, TaskWithdrawn, TaskClosed, TaskExpired}
use Claims.{
  ClaimEnrolled, ClaimSubmitted, ClaimDisputed, ClaimApproved, ClaimAutoApproved, DisputeExpired,
  DisputeResolved, ClaimRejected,
}

unfoldable pub Promise : Platform → Env → World → World → Instruction → Type 0
Promise p env w w' (initialize_config a admin fee_bps) = ConfigCreated p env w w' a admin fee_bps
Promise p env w w' (update_admin a new_admin) = AdminReplaced p env w w' a new_admin
Promise p env w w' (update_fee a new_fee_bps) = FeeReplaced p env w w' a new_fee_bps
Promise p env w w' (update_mint a) = MintReplaced p env w w' a
Promise p env w w' (initialize_task a args) = TaskFunded p env w w' a args
Promise p env w w' (cancel_before_enroll a) = TaskWithdrawn p env w w' a
Promise p env w w' (close_task a) = TaskClosed p env w w' a
Promise p env w w' (auto_cancel_task a) = TaskExpired p env w w' a
Promise p env w w' (enroll a claim_id) = ClaimEnrolled p env w w' a claim_id
Promise p env w w' (submit a deliverable_hash) = ClaimSubmitted p env w w' a deliverable_hash
Promise p env w w' (approve_claim a) = ClaimApproved p env w w' a
Promise p env w w' (reject_claim a) = ClaimRejected p env w w' a
Promise p env w w' (auto_approve a) = ClaimAutoApproved p env w w' a
Promise p env w w' (open_dispute a) = ClaimDisputed p env w w' a
Promise p env w w' (resolve_dispute a favor) = DisputeResolved p env w w' a favor
Promise p env w w' (auto_resolve_dispute a) = DisputeExpired p env w w' a
Promise p env w w' (withdraw_fees a amount) = FeesWithdrawn p env w w' a amount
