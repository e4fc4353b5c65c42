-- ===== src/Program.antt =====
-- lib.rs: the entry points. An instruction is a value; `process` hands it to its handler.
use clustly_solana_escrow.Base.{ℕ}
use clustly_solana_escrow.Error.{Result}
use clustly_solana_escrow.State.{Pubkey, Bytes}
use clustly_solana_escrow.Platform.{Platform}
use clustly_solana_escrow.World.{World, Env}
use clustly_solana_escrow.Config
use clustly_solana_escrow.Config.{InitializeConfig, UpdateConfig, UpdateMint}
use clustly_solana_escrow.Task.Initialize
use clustly_solana_escrow.Task.Initialize.{InitializeTask, TaskArgs}
use clustly_solana_escrow.Task.Cancel
use clustly_solana_escrow.Task.Cancel.{CancelBeforeEnroll, AutoCancelTask}
use clustly_solana_escrow.Task.Close
use clustly_solana_escrow.Task.Close.{CloseTask}
use clustly_solana_escrow.Claim.Enroll
use clustly_solana_escrow.Claim.Submit
use clustly_solana_escrow.Claim.Approve
use clustly_solana_escrow.Claim.Approve.{ApproveClaim, AutoApprove}
use clustly_solana_escrow.Claim.Reject
use clustly_solana_escrow.Claim.Reject.{RejectClaim}
use clustly_solana_escrow.Dispute
use clustly_solana_escrow.Dispute.{OpenDispute, ResolveDispute, AutoResolveDispute, DisputeFavor}
use clustly_solana_escrow.Fees
use clustly_solana_escrow.Fees.{WithdrawFees}

pub data Instruction : Type 0 where
  initialize_config : InitializeConfig → Pubkey → ℕ → Instruction
  update_admin : UpdateConfig → Pubkey → Instruction
  update_fee : UpdateConfig → ℕ → Instruction
  update_mint : UpdateMint → Instruction
  initialize_task : InitializeTask → TaskArgs → Instruction
  cancel_before_enroll : CancelBeforeEnroll → Instruction
  close_task : CloseTask → Instruction
  auto_cancel_task : AutoCancelTask → Instruction
  enroll : Enroll.Enroll → Bytes → Instruction
  submit : Submit.Submit → Bytes → Instruction
  approve_claim : ApproveClaim → Instruction
  reject_claim : RejectClaim → Instruction
  auto_approve : AutoApprove → Instruction
  open_dispute : OpenDispute → Instruction
  resolve_dispute : ResolveDispute → DisputeFavor → Instruction
  auto_resolve_dispute : AutoResolveDispute → Instruction
  withdraw_fees : WithdrawFees → ℕ → Instruction

unfoldable pub process : Platform → Env → World → Instruction → Result World
process p env w (initialize_config a admin fee_bps) =
    Config.initialize_config p env w a admin fee_bps
process p env w (update_admin a new_admin) = Config.update_admin p env w a new_admin
process p env w (update_fee a new_fee_bps) = Config.update_fee p env w a new_fee_bps
process p env w (update_mint a) = Config.update_mint p env w a
process p env w (initialize_task a args) = Initialize.initialize_task p env w a args
process p env w (cancel_before_enroll a) = Cancel.cancel_before_enroll p env w a
process p env w (close_task a) = Close.close_task p env w a
process p env w (auto_cancel_task a) = Cancel.auto_cancel_task p env w a
process p env w (enroll a claim_id) = Enroll.enroll p env w a claim_id
process p env w (submit a deliverable_hash) = Submit.submit p env w a deliverable_hash
process p env w (approve_claim a) = Approve.approve_claim p env w a
process p env w (reject_claim a) = Reject.reject_claim p env w a
process p env w (auto_approve a) = Approve.auto_approve p env w a
process p env w (open_dispute a) = Dispute.open_dispute p env w a
process p env w (resolve_dispute a favor) = Dispute.resolve_dispute p env w a favor
process p env w (auto_resolve_dispute a) = Dispute.auto_resolve_dispute p env w a
process p env w (withdraw_fees a amount) = Fees.withdraw_fees p env w a amount
