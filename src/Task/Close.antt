-- ===== src/Task/Close.antt =====
-- task.rs, `CloseTask`: a task whose claims are all settled is closed and the rest of its vault
-- refunded, by the poster at any time, by anybody after the task's deadline.
use clustly_solana_escrow.Base.{ℕ, ◌-◌, ◌||◌, ◌==◌}
use clustly_solana_escrow.Error.{
  deadline_not_reached, claims_not_resolved, unauthorized, invalid_state_transition, Result, ok,
  ◌>>=◌, ◌>>◌, require,
}
use clustly_solana_escrow.State.{
  Pubkey, EscrowConfig, EscrowTask, task_status, is_open, set_task_status, closed_task,
}
use clustly_solana_escrow.Platform.{TokenAccount, Platform}
use clustly_solana_escrow.World.{
  World, Env, task_account, load_config, load_task, load_token, signer, has_seeds, config_seeds,
  task_seeds, has_one, token_of, associated_of, store,
}
use clustly_solana_escrow.Closing.{drain_vault, past_deadline}

pub record CloseTask : Type 0 where
  pub caller : Pubkey
  pub config : Pubkey
  pub task : Pubkey
  pub task_vault : Pubkey
  pub poster_ata : Pubkey
  pub poster : Pubkey

unfoldable pub close_accounts :
    Platform → Env → World → CloseTask → Result (EscrowConfig × EscrowTask × TokenAccount)
close_accounts p env w a = do
  signer env a.caller
  config ← load_config w a.config
  task ← load_task w a.task
  vault ← load_token w.ledger a.task_vault
  poster_ata ← load_token w.ledger a.poster_ata
  has_seeds p a.config config_seeds config.bump
  has_seeds p a.task (task_seeds task.task_id) task.bump
  associated_of p a.task_vault vault config.usdc_mint a.task
  token_of poster_ata config.usdc_mint task.poster
  has_one task.poster a.poster unauthorized
  ok (config, task, vault)

-- `saturating_sub` twice: `-` stops at 0.
abbrev pub active_slots : EscrowTask → ℕ
active_slots t = t.slots_enrolled - t.slots_approved - t.slots_refunded

unfoldable pub close_task : Platform → Env → World → CloseTask → Result World
close_task p env w a = do
  (config, task, vault) ← close_accounts p env w a
  require (a.caller == task.poster || past_deadline task env.now) deadline_not_reached
  require (is_open (task_status task)) invalid_state_transition
  require (active_slots task == 0) claims_not_resolved
  ledger ← drain_vault p w.ledger a.task a.task_vault a.poster_ata vault.amount
  ok (store a.task (task_account (set_task_status closed_task task)) (record w { ledger = ledger }))
