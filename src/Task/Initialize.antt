-- ===== src/Task/Initialize.antt =====
-- task.rs, `InitializeTask`: the poster creates a task and pays for all its slots.
use clustly_solana_escrow.Base.{ℕ, ◌*◌, ◌^◌, ◌&&◌, ltb, leb}
use clustly_solana_escrow.Base.Int.{ℤ}
use clustly_solana_escrow.Error.{
  zero_bounty, invalid_slots, math_overflow, invalid_mint, Result, ok, ◌>>=◌, ◌>>◌, require,
}
use clustly_solana_escrow.State.{
  Pubkey, Bytes, zeros, EscrowConfig, EscrowTask, set_task_status, open_task, max_slots_limit,
}
use clustly_solana_escrow.Platform.{Ledger, Platform}
use clustly_solana_escrow.World.{
  World, Env, task_account, load_config, load_token, load_mint, signer, has_seeds, config_seeds,
  task_seeds, has_one, token_of, init_pda, init_associated, store,
}

pub record InitializeTask : Type 0 where
  pub poster : Pubkey
  pub config : Pubkey
  pub usdc_mint : Pubkey
  pub task : Pubkey
  pub task_vault : Pubkey
  pub poster_ata : Pubkey

pub record TaskArgs : Type 0 where
  pub task_id : Bytes
  pub bounty : ℕ  -- u64
  pub max_slots : ℕ  -- u16
  pub claim_deadline_secs : ℕ  -- u32
  pub task_deadline_ts : ℤ  -- i64

-- The configuration, the bump of the task, and the ledger with the new vault.
unfoldable pub initialize_task_accounts :
    Platform → Env → World → InitializeTask → Bytes → Result (EscrowConfig × ℕ × Ledger)
initialize_task_accounts p env w a task_id = do
  signer env a.poster
  config ← load_config w a.config
  load_mint w a.usdc_mint
  bump ← init_pda p w a.task (task_seeds task_id)
  ledger ← init_associated p w.ledger a.task_vault a.usdc_mint a.task
  poster_ata ← load_token ledger a.poster_ata
  has_seeds p a.config config_seeds config.bump
  has_one config.usdc_mint a.usdc_mint invalid_mint
  token_of poster_ata a.usdc_mint a.poster
  ok (config, bump, ledger)

-- `bounty * max_slots`, checked against `u128` and then against `u64`.
unfoldable pub total_bounty : ℕ → ℕ → Result ℕ
total_bounty bounty max_slots = do
  require (ltb (bounty * max_slots) (2 ^ 128)) math_overflow
  require (ltb (bounty * max_slots) (2 ^ 64)) math_overflow
  ok (bounty * max_slots)

abbrev pub new_task : InitializeTask → TaskArgs → ℕ → EscrowTask
new_task a args bump = set_task_status open_task (record {
  task_id = args.task_id;
  poster = a.poster;
  bounty = args.bounty;
  max_slots = args.max_slots;
  slots_enrolled = 0;
  slots_approved = 0;
  slots_refunded = 0;
  status = 0;
  task_deadline_ts = args.task_deadline_ts;
  claim_deadline_secs = args.claim_deadline_secs;
  bump = bump;
  vault_bump = 0;
  reserved = zeros 32;
})

unfoldable pub initialize_task : Platform → Env → World → InitializeTask → TaskArgs → Result World
initialize_task p env w a args = do
  (config, bump, opened) ← initialize_task_accounts p env w a args.task_id
  require (ltb 0 args.bounty) zero_bounty
  require (leb 1 args.max_slots && leb args.max_slots max_slots_limit) invalid_slots
  total ← total_bounty args.bounty args.max_slots
  ledger ← p.transfer opened a.poster_ata a.task_vault a.poster total
  ok (store a.task (task_account (new_task a args bump)) (record w { ledger = ledger }))
