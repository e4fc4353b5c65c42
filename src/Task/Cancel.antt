-- ===== src/Task/Cancel.antt =====
-- task.rs, `CancelBeforeEnroll` and `AutoCancelTask`: a task without enrolments is refunded, by the
-- poster at any time, by anybody after the task's deadline.
use clustly_solana_escrow.Base.{◌==◌}
use clustly_solana_escrow.Base.Dict.{erase}
use clustly_solana_escrow.Error.{
  deadline_not_reached, task_has_enrollments, unauthorized, invalid_state_transition, Result, ok,
  ◌>>=◌, ◌>>◌, require,
}
use clustly_solana_escrow.State.{
  Pubkey, EscrowConfig, EscrowTask, task_status, is_open, set_task_status, closed_task,
}
use clustly_solana_escrow.Platform.{TokenAccount, Platform}
use clustly_solana_escrow.World.{
  World, Env, task_account, load_config, load_task, load_token, signer, has_seeds, config_seeds,
  task_seeds, has_one, token_of, associated_of, store,
}
use clustly_solana_escrow.Closing.{drain_vault, past_deadline}

pub record CancelBeforeEnroll : Type 0 where
  pub poster : Pubkey
  pub config : Pubkey
  pub task : Pubkey
  pub task_vault : Pubkey
  pub poster_ata : Pubkey

unfoldable pub cancel_accounts :
    Platform → Env → World → CancelBeforeEnroll → Result (EscrowConfig × EscrowTask × TokenAccount)
cancel_accounts p env w a = do
  signer env a.poster
  config ← load_config w a.config
  task ← load_task w a.task
  vault ← load_token w.ledger a.task_vault
  poster_ata ← load_token w.ledger a.poster_ata
  has_seeds p a.config config_seeds config.bump
  has_seeds p a.task (task_seeds task.task_id) task.bump
  has_one task.poster a.poster unauthorized
  associated_of p a.task_vault vault config.usdc_mint a.task
  token_of poster_ata config.usdc_mint a.poster
  ok (config, task, vault)

-- `close = poster` takes the task off the chain.
unfoldable pub cancel_before_enroll : Platform → Env → World → CancelBeforeEnroll → Result World
cancel_before_enroll p env w a = do
  (config, task, vault) ← cancel_accounts p env w a
  require (task.slots_enrolled == 0) task_has_enrollments
  require (is_open (task_status task)) invalid_state_transition
  ledger ← drain_vault p w.ledger a.task a.task_vault a.poster_ata vault.amount
  ok (record w { accounts = erase a.task w.accounts; ledger = ledger })

pub record AutoCancelTask : Type 0 where
  pub caller : Pubkey
  pub config : Pubkey
  pub task : Pubkey
  pub task_vault : Pubkey
  pub poster_ata : Pubkey
  pub poster : Pubkey

unfoldable pub auto_cancel_accounts :
    Platform → Env → World → AutoCancelTask → Result (EscrowConfig × EscrowTask × TokenAccount)
auto_cancel_accounts p env w a = do
  signer env a.caller
  config ← load_config w a.config
  task ← load_task w a.task
  vault ← load_token w.ledger a.task_vault
  poster_ata ← load_token w.ledger a.poster_ata
  has_seeds p a.config config_seeds config.bump
  has_seeds p a.task (task_seeds task.task_id) task.bump
  associated_of p a.task_vault vault config.usdc_mint a.task
  token_of poster_ata config.usdc_mint task.poster
  has_one task.poster a.poster unauthorized
  ok (config, task, vault)

unfoldable pub auto_cancel_task : Platform → Env → World → AutoCancelTask → Result World
auto_cancel_task p env w a = do
  (config, task, vault) ← auto_cancel_accounts p env w a
  require (task.slots_enrolled == 0) task_has_enrollments
  require (is_open (task_status task)) invalid_state_transition
  require (past_deadline task env.now) deadline_not_reached
  ledger ← drain_vault p w.ledger a.task a.task_vault a.poster_ata vault.amount
  ok (store a.task (task_account (set_task_status closed_task task)) (record w { ledger = ledger }))
