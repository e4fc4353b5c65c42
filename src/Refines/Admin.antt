-- ===== src/Refines/Admin.antt =====
-- The promises of config.rs and fees.rs as transitions of the contract.
use clustly_solana_escrow.Base.{ℕ, refl}
use clustly_solana_escrow.State.{Pubkey, EscrowConfig}
use clustly_solana_escrow.Platform.{Platform}
use clustly_solana_escrow.World.{World, Env}
use clustly_solana_escrow.Config.{InitializeConfig, UpdateConfig, UpdateMint}
use clustly_solana_escrow.Fees.{WithdrawFees}
use clustly_solana_escrow.Contract.Reasons.{HasSigned}
use clustly_solana_escrow.Contract.Tasks.{FeesTaken, Configured, Reconfigured, Repinned}
use clustly_solana_escrow.Promise.Admin.{
  config_asked, ConfigCreated, ByAdmin, AdminReplaced, FeeReplaced, MintReplaced, FeesWithdrawn,
}

pub ConfigCreated-Configured :
    {p : Platform} {env : Env} {w w' : World} {a : InitializeConfig} {admin : Pubkey} {fee_bps : ℕ}
    → ConfigCreated p env w w' a admin fee_bps
    → Configured p w w'
ConfigCreated-Configured {p} {a = a} {admin} {fee_bps} m = record {
  config_key = a.config;
  config = config_asked p a admin fee_bps;
  ledger = m.ledger;
  config_at = m.address;
  unused = m.unused;
  capped = m.capped;
  vault_opened = m.fee_vault_opened;
  written = m.written;
}

admin_signed :
    {p : Platform} {env : Env} {w : World} {key admin : Pubkey} {config : EscrowConfig}
    → ByAdmin p env w key admin config
    → HasSigned env config.admin
admin_signed m = rw m.in_office m.signed

pub AdminReplaced-Reconfigured :
    {p : Platform} {env : Env} {w w' : World} {a : UpdateConfig} {new_admin : Pubkey}
    → AdminReplaced p env w w' a new_admin
    → Reconfigured env w w'
AdminReplaced-Reconfigured {a = a} {new_admin} m = record {
  config_key = a.config;
  config = m.config;
  config' = record m.config { admin = new_admin };
  config_at = m.by_admin.config_is.0;
  signed = admin_signed m.by_admin;
  same_mint = refl;
  capped = λ c. c;
  written = m.written;
}

pub FeeReplaced-Reconfigured :
    {p : Platform} {env : Env} {w w' : World} {a : UpdateConfig} {new_fee_bps : ℕ}
    → FeeReplaced p env w w' a new_fee_bps
    → Reconfigured env w w'
FeeReplaced-Reconfigured {a = a} {new_fee_bps} m = record {
  config_key = a.config;
  config = m.config;
  config' = record m.config { fee_bps = new_fee_bps };
  config_at = m.by_admin.config_is.0;
  signed = admin_signed m.by_admin;
  same_mint = refl;
  capped = λ c. m.capped;
  written = m.written;
}

pub MintReplaced-Repinned :
    {p : Platform} {env : Env} {w w' : World} {a : UpdateMint}
    → MintReplaced p env w w' a
    → Repinned env w w'
MintReplaced-Repinned {a = a} m = record {
  config_key = a.config;
  config = m.config;
  mint = a.new_mint;
  config_at = m.by_admin.config_is.0;
  signed = admin_signed m.by_admin;
  written = m.written;
}

pub FeesWithdrawn-FeesTaken :
    {p : Platform} {env : Env} {w w' : World} {a : WithdrawFees} {amount : ℕ}
    → FeesWithdrawn p env w w' a amount
    → FeesTaken p env w w'
FeesWithdrawn-FeesTaken {a = a} {amount} m = record {
  config_key = a.config;
  fee_vault = a.fee_vault;
  destination = a.destination;
  amount = amount;
  config = m.config;
  ledger = m.ledger;
  config_at = m.by_admin.config_is.0;
  signed = admin_signed m.by_admin;
  fee_owned = m.fee_vault_is.0;
  covered = m.covered;
  transferred = m.transferred;
  written = m.written;
}
