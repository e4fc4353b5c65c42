-- ===== src/Contract/Tasks.antt =====
-- The transitions of tasks, fees and the configuration.
use clustly_solana_escrow.Base.{ℕ, ◌*◌, ◌^◌, ◌≤◌, ◌<◌, ◌≡◌, ◌⊎◌, none}
use clustly_solana_escrow.Base.Dict.{lookup}
use clustly_solana_escrow.Error.{ok}
use clustly_solana_escrow.State.{
  Pubkey, EscrowConfig, EscrowTask, task_status, open_task, fee_bps_cap, max_slots_limit,
}
use clustly_solana_escrow.Platform.{Ledger, Platform, balance_of}
use clustly_solana_escrow.World.{
  World, Env, config_account, task_account, config_seeds, task_seeds, store,
}
use clustly_solana_escrow.Promise.Terms.{VaultEmptied, DeadlinePassed}
use clustly_solana_escrow.Task.Close.{active_slots}
use clustly_solana_escrow.Contract.Reasons.{IsOwned, ConfigAt, TaskAt, HasSigned}

-- A task comes with a vault and the bounty of all its slots.
pub record Funded (p : Platform) (env : Env) (w w' : World) : Type 0 where
  pub config_key : Pubkey
  pub task_key : Pubkey
  pub vault : Pubkey
  pub poster_ata : Pubkey
  pub config : EscrowConfig
  pub task : EscrowTask
  pub opened_ledger : Ledger
  pub ledger : Ledger
  pub config_at : ConfigAt w config_key config
  pub unused : lookup task_key w.accounts ≡ none
  pub derived : (p.find_program_address (task_seeds task.task_id)).0 ≡ task_key
  pub signed : HasSigned env task.poster
  pub status : task_status task ≡ open_task
  pub fresh : (task.slots_enrolled ≡ 0) × (task.slots_approved ≡ 0) × (task.slots_refunded ≡ 0)
  pub bounty_positive : 0 < task.bounty
  pub slots_range : (1 ≤ task.max_slots) × (task.max_slots ≤ max_slots_limit)
  pub fits : task.bounty * task.max_slots < 2 ^ 64
  pub vault_at : p.associated_token task_key config.usdc_mint ≡ vault
  pub vault_opened : p.create_associated w.ledger task_key config.usdc_mint ≡ ok opened_ledger
  pub poster_owned : IsOwned (opened_ledger poster_ata) task.poster
  pub transferred :
      p.transfer opened_ledger poster_ata vault task.poster (task.bounty * task.max_slots)
      ≡ ok ledger
  pub written : w' ≡ store task_key (task_account task) (record w { ledger = ledger })

-- A task without active claims gives back what its vault holds.
pub record Drained (p : Platform) (env : Env) (w : World) : Type 0 where
  pub config_key : Pubkey
  pub task_key : Pubkey
  pub vault : Pubkey
  pub poster_ata : Pubkey
  pub config : EscrowConfig
  pub task : EscrowTask
  pub ledger : Ledger
  pub config_at : ConfigAt w config_key config
  pub task_at : TaskAt w task_key task
  pub status : task_status task ≡ open_task
  pub settled : active_slots task ≡ 0
  pub entitled : HasSigned env task.poster ⊎ DeadlinePassed task env.now
  pub vault_owned : IsOwned (w.ledger vault) task_key
  pub vault_at : p.associated_token task_key config.usdc_mint ≡ vault
  pub poster_owned : IsOwned (w.ledger poster_ata) task.poster
  pub emptied : VaultEmptied p w.ledger task_key vault poster_ata ledger

-- Fees leave the fee vault.
pub record FeesTaken (p : Platform) (env : Env) (w w' : World) : Type 0 where
  pub config_key : Pubkey
  pub fee_vault : Pubkey
  pub destination : Pubkey
  pub amount : ℕ
  pub config : EscrowConfig
  pub ledger : Ledger
  pub config_at : ConfigAt w config_key config
  pub signed : HasSigned env config.admin
  pub fee_owned : IsOwned (w.ledger fee_vault) config_key
  pub covered : amount ≤ balance_of (w.ledger fee_vault)
  pub transferred : p.transfer w.ledger fee_vault destination config_key amount ≡ ok ledger
  pub written : w' ≡ record w { ledger = ledger }

-- The configuration account appears.
pub record Configured (p : Platform) (w w' : World) : Type 0 where
  pub config_key : Pubkey
  pub config : EscrowConfig
  pub ledger : Ledger
  pub config_at : (p.find_program_address config_seeds).0 ≡ config_key
  pub unused : lookup config_key w.accounts ≡ none
  pub capped : config.fee_bps ≤ fee_bps_cap
  pub vault_opened : p.create_associated w.ledger config_key config.usdc_mint ≡ ok ledger
  pub written : w' ≡ store config_key (config_account config) (record w { ledger = ledger })

-- The admin rewrites the configuration: who is admin, or the rate.
pub record Reconfigured (env : Env) (w w' : World) : Type 0 where
  pub config_key : Pubkey
  pub config : EscrowConfig
  pub config' : EscrowConfig
  pub config_at : ConfigAt w config_key config
  pub signed : HasSigned env config.admin
  pub same_mint : config'.usdc_mint ≡ config.usdc_mint
  pub capped : config.fee_bps ≤ fee_bps_cap → config'.fee_bps ≤ fee_bps_cap
  pub written : w' ≡ store config_key (config_account config') w

-- The admin pins another mint.
pub record Repinned (env : Env) (w w' : World) : Type 0 where
  pub config_key : Pubkey
  pub config : EscrowConfig
  pub mint : Pubkey
  pub config_at : ConfigAt w config_key config
  pub signed : HasSigned env config.admin
  pub written : w' ≡ store config_key (config_account (record config { usdc_mint = mint })) w
