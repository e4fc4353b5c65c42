-- ===== src/Promise/Admin.antt =====
-- What the configuration instructions and the withdrawal of fees promise (config.rs, fees.rs).
use clustly_solana_escrow.Base.{ℕ, ◌≤◌, ◌≡◌, true, none}
use clustly_solana_escrow.Base.Dict.{lookup}
use clustly_solana_escrow.Error.{ok}
use clustly_solana_escrow.State.{Pubkey, zeros, EscrowConfig}
use clustly_solana_escrow.Platform.{Ledger, Platform, balance_of}
use clustly_solana_escrow.World.{World, Env, config_account, config_seeds, store}
use clustly_solana_escrow.Config.{InitializeConfig, UpdateConfig, UpdateMint}
use clustly_solana_escrow.Fees.{WithdrawFees}
use clustly_solana_escrow.Contract.Reasons.{HasSigned}
use clustly_solana_escrow.Promise.Terms.{ConfigIs, AssociatedIs, HasMint}

-- The configuration that is asked for, with the bump of its address.
abbrev pub config_asked : Platform → InitializeConfig → Pubkey → ℕ → EscrowConfig
config_asked p a admin fee_bps = record {
  admin = admin;
  usdc_mint = a.usdc_mint;
  fee_bps = fee_bps;
  bump = (p.find_program_address config_seeds).1;
  fee_vault_bump = 0;
  reserved = zeros 64;
}

-- The one configuration appears, as given, with an empty fee vault of the mint.
pub record ConfigCreated (p : Platform) (env : Env) (w w' : World) (a : InitializeConfig)
    (admin : Pubkey) (fee_bps : ℕ) : Type 0 where
  pub signed : HasSigned env a.payer
  pub address : (p.find_program_address config_seeds).0 ≡ a.config
  pub unused : lookup a.config w.accounts ≡ none
  pub mint_is : w.is_mint a.usdc_mint ≡ true
  pub fee_vault_at : p.associated_token a.config a.usdc_mint ≡ a.fee_vault
  pub capped : fee_bps ≤ 500
  pub ledger : Ledger
  pub fee_vault_opened : p.create_associated w.ledger a.config a.usdc_mint ≡ ok ledger
  pub written :
      w'
      ≡ store a.config
          (config_account (config_asked p a admin fee_bps))
          (record w { ledger = ledger })

-- The admin in office has signed, and the configuration is the one at the address.
pub record ByAdmin (p : Platform) (env : Env) (w : World) (key admin : Pubkey)
    (config : EscrowConfig) : Type 0 where
  pub config_is : ConfigIs p w key config
  pub in_office : config.admin ≡ admin
  pub signed : HasSigned env admin

pub record AdminReplaced (p : Platform) (env : Env) (w w' : World) (a : UpdateConfig)
    (new_admin : Pubkey) : Type 0 where
  pub config : EscrowConfig
  pub by_admin : ByAdmin p env w a.config a.admin config
  pub written : w' ≡ store a.config (config_account (record config { admin = new_admin })) w

pub record FeeReplaced (p : Platform) (env : Env) (w w' : World) (a : UpdateConfig)
    (new_fee_bps : ℕ) : Type 0 where
  pub config : EscrowConfig
  pub by_admin : ByAdmin p env w a.config a.admin config
  pub capped : new_fee_bps ≤ 500
  pub written : w' ≡ store a.config (config_account (record config { fee_bps = new_fee_bps })) w

pub record MintReplaced (p : Platform) (env : Env) (w w' : World) (a : UpdateMint) : Type 0 where
  pub config : EscrowConfig
  pub by_admin : ByAdmin p env w a.config a.admin config
  pub mint_is : w.is_mint a.new_mint ≡ true
  pub written : w' ≡ store a.config (config_account (record config { usdc_mint = a.new_mint })) w

-- The amount goes from the fee vault, which holds it, to a token account of the pinned mint, and
-- no account of the program changes.
pub record FeesWithdrawn (p : Platform) (env : Env) (w w' : World) (a : WithdrawFees) (amount : ℕ)
    : Type 0 where
  pub config : EscrowConfig
  pub by_admin : ByAdmin p env w a.config a.admin config
  pub fee_vault_is : AssociatedIs p w.ledger a.fee_vault config.usdc_mint a.config
  pub destination_is : HasMint (w.ledger a.destination) config.usdc_mint
  pub covered : amount ≤ balance_of (w.ledger a.fee_vault)
  pub ledger : Ledger
  pub transferred : p.transfer w.ledger a.fee_vault a.destination a.config amount ≡ ok ledger
  pub written : w' ≡ record w { ledger = ledger }
