-- ===== src/Claim/Approve.antt =====
-- claim.rs, `ApproveClaim` and `AutoApprove`: a submitted claim is paid, by the poster's decision or,
-- fourteen days after the submission, by anybody's call.
use clustly_solana_escrow.Base.{◌&&◌, ◌==◌}
use clustly_solana_escrow.Base.Int.{pos, ltb_ℤ, leb_ℤ, saturating_sub_i64}
use clustly_solana_escrow.Error.{
  unauthorized, invalid_state_transition, task_claim_mismatch, invalid_mint, auto_action_too_early,
  Result, ok, ◌>>=◌, ◌>>◌, require,
}
use clustly_solana_escrow.State.{
  Pubkey, EscrowConfig, EscrowTask, EscrowClaim, task_status, is_open, claim_status, status_eq,
  submitted, approved, auto_approve_window_secs,
}
use clustly_solana_escrow.Platform.{Platform}
use clustly_solana_escrow.World.{
  World, Env, load_config, load_task, load_claim, load_token, load_mint, signer, has_seeds,
  config_seeds, task_seeds, claim_seeds, has_one, associated_of,
}
use clustly_solana_escrow.Payout.{PayoutKeys, pay_deliverer, elapsed}

pub record ApproveClaim : Type 0 where
  pub poster : Pubkey
  pub keys : PayoutKeys
  pub open keys use *

unfoldable pub approve_accounts :
    Platform → Env → World → ApproveClaim → Result (EscrowConfig × EscrowTask × EscrowClaim)
approve_accounts p env w a = do
  signer env a.poster
  config ← load_config w a.config
  load_mint w a.usdc_mint
  task ← load_task w a.task
  claim ← load_claim w a.claim
  vault ← load_token w.ledger a.task_vault
  claimer_ata ← load_token w.ledger a.claimer_ata
  fee_vault ← load_token w.ledger a.fee_vault
  has_seeds p a.config config_seeds config.bump
  has_seeds p a.task (task_seeds task.task_id) task.bump
  has_one task.poster a.poster unauthorized
  has_seeds p a.claim (claim_seeds claim.claim_id) claim.bump
  has_one claim.task a.task task_claim_mismatch
  associated_of p a.task_vault vault a.usdc_mint a.task
  associated_of p a.claimer_ata claimer_ata a.usdc_mint a.claimer
  has_one claim.claimer a.claimer unauthorized
  associated_of p a.fee_vault fee_vault a.usdc_mint a.config
  ok (config, task, claim)

unfoldable pub approve_claim : Platform → Env → World → ApproveClaim → Result World
approve_claim p env w a = do
  (config, task, claim) ← approve_accounts p env w a
  require (a.usdc_mint == config.usdc_mint) invalid_mint
  require (is_open (task_status task)) invalid_state_transition
  current ← claim_status claim
  require (status_eq current submitted) invalid_state_transition
  pay_deliverer p w a.keys approved config task claim

pub record AutoApprove : Type 0 where
  pub caller : Pubkey
  pub keys : PayoutKeys
  pub open keys use *

unfoldable pub auto_approve_accounts :
    Platform → Env → World → AutoApprove → Result (EscrowConfig × EscrowTask × EscrowClaim)
auto_approve_accounts p env w a = do
  signer env a.caller
  config ← load_config w a.config
  load_mint w a.usdc_mint
  task ← load_task w a.task
  claim ← load_claim w a.claim
  vault ← load_token w.ledger a.task_vault
  claimer_ata ← load_token w.ledger a.claimer_ata
  fee_vault ← load_token w.ledger a.fee_vault
  has_seeds p a.config config_seeds config.bump
  has_seeds p a.task (task_seeds task.task_id) task.bump
  has_seeds p a.claim (claim_seeds claim.claim_id) claim.bump
  has_one claim.task a.task task_claim_mismatch
  associated_of p a.task_vault vault a.usdc_mint a.task
  associated_of p a.claimer_ata claimer_ata a.usdc_mint a.claimer
  has_one claim.claimer a.claimer unauthorized
  associated_of p a.fee_vault fee_vault a.usdc_mint a.config
  ok (config, task, claim)

unfoldable pub auto_approve : Platform → Env → World → AutoApprove → Result World
auto_approve p env w a = do
  (config, task, claim) ← auto_approve_accounts p env w a
  require (a.usdc_mint == config.usdc_mint) invalid_mint
  require (is_open (task_status task)) invalid_state_transition
  current ← claim_status claim
  require (status_eq current submitted) invalid_state_transition
  require
      (ltb_ℤ (pos 0) claim.submitted_at
        && leb_ℤ auto_approve_window_secs (saturating_sub_i64 env.now claim.submitted_at))
      auto_action_too_early
  w' ← pay_deliverer p w a.keys approved config task claim
  _ ← elapsed env.now claim.submitted_at
  ok w'
