-- ===== src/Refines.antt =====
-- The promises of all instructions (lib.rs) as transitions of the contract.
pub mod Payouts
pub mod Bytes
pub mod Moves
pub mod Tasks
pub mod Admin
use clustly_solana_escrow.Base.{◌≡◌}
use clustly_solana_escrow.Error.{ok}
use clustly_solana_escrow.Platform.{Platform}
use clustly_solana_escrow.World.{World, Env}
use clustly_solana_escrow.Program.{
  Instruction, process, initialize_config, update_admin, update_fee, update_mint, initialize_task,
  cancel_before_enroll, close_task, auto_cancel_task, enroll, submit, approve_claim, reject_claim,
  auto_approve, open_dispute, resolve_dispute, auto_resolve_dispute, withdraw_fees,
}
use clustly_solana_escrow.Promise.{Promise}
use clustly_solana_escrow.Kept.{process-Promise}
use clustly_solana_escrow.Contract.{
  Transition, configured, reconfigured, repinned, funded, slot_taken, claim_moved, paid, refunded,
  fees_taken,
}
use Payouts.{
  ClaimApproved-Paid, ClaimAutoApproved-Paid, DisputeExpired-Paid, DisputeResolved-Transition,
  ClaimRejected-Transition,
}
use Moves.{ClaimSubmitted-ClaimMoved, ClaimDisputed-ClaimMoved, ClaimEnrolled-SlotTaken}
use Tasks.{
  TaskFunded-Funded, TaskWithdrawn-Transition, TaskClosed-Transition, TaskExpired-Transition,
}
use Admin.{
  ConfigCreated-Configured, AdminReplaced-Reconfigured, FeeReplaced-Reconfigured,
  MintReplaced-Repinned, FeesWithdrawn-FeesTaken,
}

Promise-Transition :
    (p : Platform) (env : Env) (w w' : World) (i : Instruction)
    → Promise p env w w' i
    → Transition p env w w'
unfolding Promise
Promise-Transition p env w w' (initialize_config a admin fee_bps) m =
    configured (ConfigCreated-Configured m)
Promise-Transition p env w w' (update_admin a k) m = reconfigured (AdminReplaced-Reconfigured m)
Promise-Transition p env w w' (update_fee a n) m = reconfigured (FeeReplaced-Reconfigured m)
Promise-Transition p env w w' (update_mint a) m = repinned (MintReplaced-Repinned m)
Promise-Transition p env w w' (initialize_task a args) m = funded (TaskFunded-Funded m)
Promise-Transition p env w w' (cancel_before_enroll a) m = TaskWithdrawn-Transition m
Promise-Transition p env w w' (close_task a) m = TaskClosed-Transition m
Promise-Transition p env w w' (auto_cancel_task a) m = TaskExpired-Transition m
Promise-Transition p env w w' (enroll a claim_id) m = slot_taken (ClaimEnrolled-SlotTaken m)
Promise-Transition p env w w' (submit a hash) m = claim_moved (ClaimSubmitted-ClaimMoved m)
Promise-Transition p env w w' (approve_claim a) m = paid (ClaimApproved-Paid m)
Promise-Transition p env w w' (reject_claim a) m = ClaimRejected-Transition m
Promise-Transition p env w w' (auto_approve a) m = paid (ClaimAutoApproved-Paid m)
Promise-Transition p env w w' (open_dispute a) m = claim_moved (ClaimDisputed-ClaimMoved m)
Promise-Transition p env w w' (resolve_dispute a favor) m = DisputeResolved-Transition favor m
Promise-Transition p env w w' (auto_resolve_dispute a) m = paid (DisputeExpired-Paid m)
Promise-Transition p env w w' (withdraw_fees a amount) m = fees_taken (FeesWithdrawn-FeesTaken m)

-- Every instruction that succeeds makes one of the eleven transitions.
pub process-Transition :
    (p : Platform) (env : Env) (w w' : World) (i : Instruction)
    → process p env w i ≡ ok w'
    → Transition p env w w'
process-Transition p env w w' i h = Promise-Transition p env w w' i (process-Promise p env w w' i h)
