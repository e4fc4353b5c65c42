-- ===== src/Config.antt =====
-- instructions/config.rs: the one configuration account, and the admin's changes to it.
use clustly_solana_escrow.Base.{ℕ, leb}
use clustly_solana_escrow.Error.{fee_too_high, unauthorized, Result, ok, ◌>>=◌, ◌>>◌, require}
use clustly_solana_escrow.State.{Pubkey, zeros, EscrowConfig, fee_bps_cap}
use clustly_solana_escrow.Platform.{Ledger, Platform}
use clustly_solana_escrow.World.{
  World, Env, config_account, load_config, load_mint, signer, has_seeds, config_seeds, has_one,
  init_pda, init_associated, store,
}

pub record InitializeConfig : Type 0 where
  pub payer : Pubkey
  pub config : Pubkey
  pub usdc_mint : Pubkey
  pub fee_vault : Pubkey

unfoldable pub initialize_config_accounts :
    Platform → Env → World → InitializeConfig → Result (ℕ × Ledger)
initialize_config_accounts p env w a = do
  signer env a.payer
  bump ← init_pda p w a.config config_seeds
  load_mint w a.usdc_mint
  ledger ← init_associated p w.ledger a.fee_vault a.usdc_mint a.config
  ok (bump, ledger)

unfoldable pub initialize_config :
    Platform → Env → World → InitializeConfig → Pubkey → ℕ → Result World
initialize_config p env w a admin fee_bps = do
  (bump, ledger) ← initialize_config_accounts p env w a
  require (leb fee_bps fee_bps_cap) fee_too_high
  ok (
      store a.config
        (config_account (record {
          admin = admin;
          usdc_mint = a.usdc_mint;
          fee_bps = fee_bps;
          bump = bump;
          fee_vault_bump = 0;
          reserved = zeros 64;
        }))
        (record w { ledger = ledger }))

-- `UpdateAdmin` and `UpdateFee` name the same accounts, with the same constraints.
pub record UpdateConfig : Type 0 where
  pub config : Pubkey
  pub admin : Pubkey

unfoldable pub update_config_accounts : Platform → Env → World → UpdateConfig → Result EscrowConfig
update_config_accounts p env w a = do
  config ← load_config w a.config
  signer env a.admin
  has_seeds p a.config config_seeds config.bump
  has_one config.admin a.admin unauthorized
  ok config

unfoldable pub update_admin : Platform → Env → World → UpdateConfig → Pubkey → Result World
update_admin p env w a new_admin = do
  config ← update_config_accounts p env w a
  ok (store a.config (config_account (record config { admin = new_admin })) w)

unfoldable pub update_fee : Platform → Env → World → UpdateConfig → ℕ → Result World
update_fee p env w a new_fee_bps = do
  config ← update_config_accounts p env w a
  require (leb new_fee_bps fee_bps_cap) fee_too_high
  ok (store a.config (config_account (record config { fee_bps = new_fee_bps })) w)

pub record UpdateMint : Type 0 where
  pub config : Pubkey
  pub new_mint : Pubkey
  pub admin : Pubkey

unfoldable pub update_mint_accounts : Platform → Env → World → UpdateMint → Result EscrowConfig
update_mint_accounts p env w a = do
  config ← load_config w a.config
  load_mint w a.new_mint
  signer env a.admin
  has_seeds p a.config config_seeds config.bump
  has_one config.admin a.admin unauthorized
  ok config

unfoldable pub update_mint : Platform → Env → World → UpdateMint → Result World
update_mint p env w a = do
  config ← update_mint_accounts p env w a
  ok (store a.config (config_account (record config { usdc_mint = a.new_mint })) w)
