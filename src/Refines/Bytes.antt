-- ===== src/Refines/Bytes.antt =====
-- The status bytes of the promises as the statuses that state.rs reads from them.
use clustly_solana_escrow.Base.{◌≡◌, arith}
use clustly_solana_escrow.Error.{ok}
use clustly_solana_escrow.State.{
  EscrowTask, EscrowClaim, task_status, open_task, ClaimStatus, claim_status, claim_status_to_u8,
}

pub open_of_byte : (t : EscrowTask) → t.status ≡ 0 → task_status t ≡ open_task
unfolding task_status
open_of_byte t h = ground arith

pub status_of_byte :
    (c : EscrowClaim) (s : ClaimStatus) → c.status ≡ claim_status_to_u8 s → claim_status c ≡ ok s
unfolding claim_status
status_of_byte c s h = ground arith
