-- ===== src/State/Status.antt =====
-- The status bytes of tasks and claims (state.rs).
use clustly_solana_escrow.Base.{ℕ, ◌≡◌, ap, ◌∙◌, ◌↔◌, true, some, arith}
use clustly_solana_escrow.Error.{
  EscrowError, Result, ok, ◌>>=◌, ◌>>◌, require, >>=-eq-ok, require-ok,
}
use clustly_solana_escrow.State.{
  TaskStatus, EscrowTask, task_status, set_task_status, ClaimStatus, claim_status_to_u8, from_u8,
  EscrowClaim, claim_status, set_claim_status, status_eq,
}

-- A byte decodes to a status exactly if it is the byte of that status.
pub from_u8_iff : (v : ℕ) (s : ClaimStatus) → (from_u8 v ≡ some s) ↔ (claim_status_to_u8 s ≡ v)
unfolding from_u8
from_u8_iff v s = (λ e. ground arith, λ e. ground arith)

pub claim_status-set :
    (s : ClaimStatus) (c : EscrowClaim) → claim_status (set_claim_status s c) ≡ ok s
unfolding claim_status
claim_status-set s c = ground arith

pub task_status-set : (s : TaskStatus) (t : EscrowTask) → task_status (set_task_status s t) ≡ s
unfolding task_status
task_status-set s t = ground arith

pub status_eq→eq : (a b : ClaimStatus) → status_eq a b ≡ true → a ≡ b
unfolding status_eq
status_eq→eq a b h = ground arith

-- The two lines by which a handler demands one status of a claim.
pub require_status {ℓ} :
    {B : Type ℓ} (c : EscrowClaim) (s : ClaimStatus) (e : EscrowError) (k : Result B) {b : B}
    → (claim_status c >>= λ current. require (status_eq current s) e >> k) ≡ ok b
    → (claim_status c ≡ ok s) × (k ≡ ok b)
require_status c s e k h =
    let (current, read, rest) = >>=-eq-ok (claim_status c) _ h in
    let (same, done) = require-ok (status_eq current s) e k rest in
    (read ∙ ap ok (status_eq→eq current s same), done)
