-- ===== src/Kept/Admin.antt =====
-- The configuration instructions (config.rs) and the withdrawal of fees (fees.rs) against their
-- promises.
use clustly_solana_escrow.Base.{ℕ, ◌≡◌, sym, true, none, leb, arith}
use clustly_solana_escrow.Base.Dict.{lookup}
use clustly_solana_escrow.Error.{
  fee_too_high, insufficient_fee_vault, ok, >>=-eq-ok, require-ok, ok-injective,
}
use clustly_solana_escrow.State.{Pubkey, EscrowConfig, fee_bps_cap}
use clustly_solana_escrow.Platform.{TokenAccount, Ledger, Platform, balance_of}
use clustly_solana_escrow.World.{World, Env, load_config, load_token, config_seeds}
use clustly_solana_escrow.Config.{
  InitializeConfig, UpdateConfig, UpdateMint, initialize_config, initialize_config_accounts,
  update_admin, update_fee, update_mint, update_config_accounts, update_mint_accounts,
}
use clustly_solana_escrow.Fees.{WithdrawFees, withdraw_accounts, withdraw_fees}
use clustly_solana_escrow.Contract.Reasons.{HasSigned}
use clustly_solana_escrow.Promise.Terms.{AssociatedIs, HasMint}
use clustly_solana_escrow.Promise.Admin.{
  ConfigCreated, ByAdmin, AdminReplaced, FeeReplaced, MintReplaced, FeesWithdrawn,
}
use clustly_solana_escrow.Kept.Steps.{leb_le}

record CreationChecks (p : Platform) (env : Env) (w : World) (a : InitializeConfig) (bump : ℕ)
    (ledger : Ledger) : Type 0 where
  signed : HasSigned env a.payer
  address : (p.find_program_address config_seeds).0 ≡ a.config
  canonical : bump ≡ (p.find_program_address config_seeds).1
  unused : lookup a.config w.accounts ≡ none
  mint_is : w.is_mint a.usdc_mint ≡ true
  fee_vault_at : p.associated_token a.config a.usdc_mint ≡ a.fee_vault
  opened : p.create_associated w.ledger a.config a.usdc_mint ≡ ok ledger

creation_checks :
    (p : Platform) (env : Env) (w : World) (a : InitializeConfig) {bump : ℕ} {ledger : Ledger}
    → initialize_config_accounts p env w a ≡ ok (bump, ledger)
    → CreationChecks p env w a bump ledger
unfolding initialize_config_accounts
creation_checks p env w a h = ground arith

pub initialize_config-ConfigCreated :
    (p : Platform) (env : Env) (w w' : World) (a : InitializeConfig) (admin : Pubkey) (fee_bps : ℕ)
    → initialize_config p env w a admin fee_bps ≡ ok w'
    → ConfigCreated p env w w' a admin fee_bps
unfolding initialize_config
initialize_config-ConfigCreated p env w w' a admin fee_bps h =
    let ((bump, ledger), checked, rest) = >>=-eq-ok (initialize_config_accounts p env w a) _ h in
    let (capped, done) = require-ok (leb fee_bps fee_bps_cap) fee_too_high _ rest in
    let f = creation_checks p env w a checked in
    record {
      signed = f.signed;
      address = f.address;
      unused = f.unused;
      mint_is = f.mint_is;
      fee_vault_at = f.fee_vault_at;
      capped = leb_le fee_bps 500 capped;
      ledger = ledger;
      fee_vault_opened = f.opened;
      written = rw (← f.canonical) (ok-injective (sym done));
    }

update_config_checks :
    (p : Platform) (env : Env) (w : World) (a : UpdateConfig) {config : EscrowConfig}
    → update_config_accounts p env w a ≡ ok config
    → ByAdmin p env w a.config a.admin config
unfolding update_config_accounts load_config
update_config_checks p env w a h = ground arith

pub update_admin-AdminReplaced :
    (p : Platform) (env : Env) (w w' : World) (a : UpdateConfig) (new_admin : Pubkey)
    → update_admin p env w a new_admin ≡ ok w'
    → AdminReplaced p env w w' a new_admin
unfolding update_admin
update_admin-AdminReplaced p env w w' a new_admin h =
    let (config, checked, done) = >>=-eq-ok (update_config_accounts p env w a) _ h in
    record {
      config = config;
      by_admin = update_config_checks p env w a checked;
      written = ok-injective (sym done);
    }

pub update_fee-FeeReplaced :
    (p : Platform) (env : Env) (w w' : World) (a : UpdateConfig) (new_fee_bps : ℕ)
    → update_fee p env w a new_fee_bps ≡ ok w'
    → FeeReplaced p env w w' a new_fee_bps
unfolding update_fee
update_fee-FeeReplaced p env w w' a new_fee_bps h =
    let (config, checked, rest) = >>=-eq-ok (update_config_accounts p env w a) _ h in
    let (capped, done) = require-ok (leb new_fee_bps fee_bps_cap) fee_too_high _ rest in
    record {
      config = config;
      by_admin = update_config_checks p env w a checked;
      capped = leb_le new_fee_bps 500 capped;
      written = ok-injective (sym done);
    }

update_mint_checks :
    (p : Platform) (env : Env) (w : World) (a : UpdateMint) {config : EscrowConfig}
    → update_mint_accounts p env w a ≡ ok config
    → ByAdmin p env w a.config a.admin config × (w.is_mint a.new_mint ≡ true)
unfolding update_mint_accounts load_config
update_mint_checks p env w a h = ground arith

pub update_mint-MintReplaced :
    (p : Platform) (env : Env) (w w' : World) (a : UpdateMint)
    → update_mint p env w a ≡ ok w'
    → MintReplaced p env w w' a
unfolding update_mint
update_mint-MintReplaced p env w w' a h =
    let (config, checked, done) = >>=-eq-ok (update_mint_accounts p env w a) _ h in
    let (by_admin, mint_is) = update_mint_checks p env w a checked in
    record {
      config = config;
      by_admin = by_admin;
      mint_is = mint_is;
      written = ok-injective (sym done);
    }

record WithdrawalChecks (p : Platform) (env : Env) (w : World) (a : WithdrawFees)
    (config : EscrowConfig) (vault : TokenAccount) : Type 0 where
  by_admin : ByAdmin p env w a.config a.admin config
  fee_vault_is : AssociatedIs p w.ledger a.fee_vault config.usdc_mint a.config
  destination_is : HasMint (w.ledger a.destination) config.usdc_mint
  loaded : balance_of (w.ledger a.fee_vault) ≡ vault.amount

withdrawal_checks :
    (p : Platform) (env : Env) (w : World) (a : WithdrawFees) {config : EscrowConfig}
    {vault : TokenAccount}
    → withdraw_accounts p env w a ≡ ok (config, vault)
    → WithdrawalChecks p env w a config vault
unfolding withdraw_accounts load_config load_token
withdrawal_checks p env w a h = ground arith

pub withdraw_fees-FeesWithdrawn :
    (p : Platform) (env : Env) (w w' : World) (a : WithdrawFees) (amount : ℕ)
    → withdraw_fees p env w a amount ≡ ok w'
    → FeesWithdrawn p env w w' a amount
unfolding withdraw_fees
withdraw_fees-FeesWithdrawn p env w w' a amount h =
    let ((config, vault), checked, rest) = >>=-eq-ok (withdraw_accounts p env w a) _ h in
    let (covered, rest1) = require-ok (leb amount vault.amount) insufficient_fee_vault _ rest in
    let (ledger, transferred, done) =
      >>=-eq-ok (p.transfer w.ledger a.fee_vault a.destination a.config amount) _ rest1 in
    let f = withdrawal_checks p env w a checked in
    record {
      config = config;
      by_admin = f.by_admin;
      fee_vault_is = f.fee_vault_is;
      destination_is = f.destination_is;
      covered = rw f.loaded (leb_le amount vault.amount covered);
      ledger = ledger;
      transferred = transferred;
      written = ok-injective (sym done);
    }
