-- ===== src/Claim/Submit.antt =====
-- claim.rs, `Submit`: the claimer delivers, for the first time or after a rejection.
use clustly_solana_escrow.Base.{◌||◌}
use clustly_solana_escrow.Error.{
  unauthorized, invalid_state_transition, task_claim_mismatch, Result, ok, ◌>>=◌, ◌>>◌, require,
}
use clustly_solana_escrow.State.{
  Pubkey, Bytes, EscrowTask, EscrowClaim, claim_status, status_eq, set_claim_status, enrolled,
  submitted, rejected,
}
use clustly_solana_escrow.Platform.{Platform}
use clustly_solana_escrow.World.{
  World, Env, claim_account, load_task, load_claim, signer, has_seeds, task_seeds, claim_seeds,
  has_one, store,
}

pub record Submit : Type 0 where
  pub claimer : Pubkey
  pub task : Pubkey
  pub claim : Pubkey

unfoldable pub submit_accounts : Platform → Env → World → Submit → Result (EscrowTask × EscrowClaim)
submit_accounts p env w a = do
  signer env a.claimer
  task ← load_task w a.task
  claim ← load_claim w a.claim
  has_seeds p a.task (task_seeds task.task_id) task.bump
  has_seeds p a.claim (claim_seeds claim.claim_id) claim.bump
  has_one claim.claimer a.claimer unauthorized
  has_one claim.task a.task task_claim_mismatch
  ok (task, claim)

unfoldable pub submit : Platform → Env → World → Submit → Bytes → Result World
submit p env w a deliverable_hash = do
  (task, claim) ← submit_accounts p env w a
  current ← claim_status claim
  require (status_eq current enrolled || status_eq current rejected) invalid_state_transition
  ok (
      store a.claim
        (claim_account (record (set_claim_status submitted claim) {
          submitted_at = env.now;
          deliverable_hash = deliverable_hash;
        }))
        w)
