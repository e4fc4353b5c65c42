-- ===== src/Fees.antt =====
-- instructions/fees.rs: the admin takes fees out of the fee vault.
use clustly_solana_escrow.Base.{ℕ, leb}
use clustly_solana_escrow.Error.{
  insufficient_fee_vault, unauthorized, Result, ok, ◌>>=◌, ◌>>◌, require,
}
use clustly_solana_escrow.State.{Pubkey, EscrowConfig}
use clustly_solana_escrow.Platform.{TokenAccount, Platform}
use clustly_solana_escrow.World.{
  World, Env, load_config, load_token, load_mint, signer, has_seeds, config_seeds, has_one,
  token_mint, associated_of,
}

pub record WithdrawFees : Type 0 where
  pub admin : Pubkey
  pub config : Pubkey
  pub fee_vault : Pubkey
  pub destination : Pubkey
  pub usdc_mint : Pubkey

-- The configuration and the fee vault, as loaded.
unfoldable pub withdraw_accounts :
    Platform → Env → World → WithdrawFees → Result (EscrowConfig × TokenAccount)
withdraw_accounts p env w a = do
  signer env a.admin
  config ← load_config w a.config
  fee_vault ← load_token w.ledger a.fee_vault
  destination ← load_token w.ledger a.destination
  load_mint w a.usdc_mint
  has_seeds p a.config config_seeds config.bump
  has_one config.admin a.admin unauthorized
  associated_of p a.fee_vault fee_vault config.usdc_mint a.config
  token_mint destination config.usdc_mint
  ok (config, fee_vault)

unfoldable pub withdraw_fees : Platform → Env → World → WithdrawFees → ℕ → Result World
withdraw_fees p env w a amount = do
  (config, fee_vault) ← withdraw_accounts p env w a
  require (leb amount fee_vault.amount) insufficient_fee_vault
  ledger ← p.transfer w.ledger a.fee_vault a.destination a.config amount
  ok (record w { ledger = ledger })
