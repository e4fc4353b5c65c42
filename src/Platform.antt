-- ===== src/Platform.antt =====
-- What the program calls and does not implement: address derivation, the SPL token program and
-- the associated token program. They are the fields of a record that every instruction takes; what
-- their documentation promises is stated in `Laws`, as a hypothesis of the theorems that need it.
pub mod Laws
pub mod Sample
use clustly_solana_escrow.Base.{ℕ, ◌+◌, ◌-◌, Bool, Option, none, some, List, ◌==◌, if◌then◌else◌}
use clustly_solana_escrow.Error.{Result}
use clustly_solana_escrow.State.{Pubkey, Bytes}

-- A token account of the SPL token program.
pub record TokenAccount : Type 0 where
  pub mint : Pubkey
  pub owner : Pubkey
  pub amount : ℕ
  pub frozen : Bool

-- The token accounts by address.
abbrev pub Ledger : Type 0
Ledger = Pubkey → Option TokenAccount

pub record Platform : Type 0 where
  -- `Pubkey::find_program_address`: the address and its bump.
  pub find_program_address : List Bytes → Pubkey × ℕ
  -- `Pubkey::create_program_address`, with the bump that is appended to the seeds.
  pub create_program_address : List Bytes → ℕ → Option Pubkey
  -- The associated token address of an authority and a mint.
  pub associated_token : Pubkey → Pubkey → Pubkey
  -- `token::transfer`: from, to, authority, amount.
  pub transfer : Ledger → Pubkey → Pubkey → Pubkey → ℕ → Result Ledger
  -- `token::close_account`: account, authority.
  pub close_account : Ledger → Pubkey → Pubkey → Result Ledger
  -- The associated token program's `create`: authority, mint.
  pub create_associated : Ledger → Pubkey → Pubkey → Result Ledger

abbrev pub balance_of : Option TokenAccount → ℕ
balance_of none = 0
balance_of (some v) = v.amount
