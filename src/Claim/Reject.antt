-- ===== src/Claim/Reject.antt =====
-- claim.rs, `RejectClaim`: the poster sends a submission back; the third time the claim is cancelled
-- and its slot refunded.
use clustly_solana_escrow.Base.{leb, if◌then◌else◌}
use clustly_solana_escrow.Error.{
  unauthorized, invalid_state_transition, task_claim_mismatch, Result, ok, ◌>>=◌, ◌>>◌, require,
}
use clustly_solana_escrow.State.{
  Pubkey, EscrowConfig, EscrowTask, EscrowClaim, task_status, is_open, claim_status, status_eq,
  set_claim_status, submitted, rejected, cancelled, checked_inc, max_rejections,
}
use clustly_solana_escrow.Platform.{Platform}
use clustly_solana_escrow.World.{
  World, Env, claim_account, load_config, load_task, load_claim, load_token, signer, has_seeds,
  config_seeds, task_seeds, claim_seeds, has_one, token_of, associated_of, store,
}
use clustly_solana_escrow.Payout.{refund_slot}

pub record RejectClaim : Type 0 where
  pub poster : Pubkey
  pub config : Pubkey
  pub task : Pubkey
  pub claim : Pubkey
  pub task_vault : Pubkey
  pub poster_ata : Pubkey

unfoldable pub reject_accounts :
    Platform → Env → World → RejectClaim → Result (EscrowConfig × EscrowTask × EscrowClaim)
reject_accounts p env w a = do
  signer env a.poster
  config ← load_config w a.config
  task ← load_task w a.task
  claim ← load_claim w a.claim
  vault ← load_token w.ledger a.task_vault
  poster_ata ← load_token w.ledger a.poster_ata
  has_seeds p a.config config_seeds config.bump
  has_seeds p a.task (task_seeds task.task_id) task.bump
  has_one task.poster a.poster unauthorized
  has_seeds p a.claim (claim_seeds claim.claim_id) claim.bump
  has_one claim.task a.task task_claim_mismatch
  associated_of p a.task_vault vault config.usdc_mint a.task
  token_of poster_ata config.usdc_mint task.poster
  ok (config, task, claim)

unfoldable pub reject_claim : Platform → Env → World → RejectClaim → Result World
reject_claim p env w a = do
  (config, task, claim) ← reject_accounts p env w a
  require (is_open (task_status task)) invalid_state_transition
  current ← claim_status claim
  require (status_eq current submitted) invalid_state_transition
  rejections ← checked_inc 8 claim.rejections
  let counted = record claim { rejections = rejections }
  if leb max_rejections rejections
      then refund_slot p w a.task a.claim a.task_vault a.poster_ata task
          (set_claim_status cancelled counted)
      else ok (store a.claim (claim_account (set_claim_status rejected counted)) w)
