-- ===== src/World.antt =====
-- The chain as the program sees it, and the constraints of the `#[derive(Accounts)]` structs. An
-- instruction takes its accounts by address; loading one is the check of its type, and every
-- constraint is a check that reports an error. Of several violated constraints the model reports
-- the first in the order in which it lists them.
use clustly_solana_escrow.Base.{ℕ, Bool, true, false, Option, none, some, List, [], ◌∷◌, ◌==◌}
use clustly_solana_escrow.Base.Int.{ℤ}
use clustly_solana_escrow.Base.Dict.{Dict, lookup, insert}
use clustly_solana_escrow.Error.{
  EscrowError, account_not_initialized, account_not_signer, account_in_use, constraint_seeds,
  constraint_token_mint, constraint_token_owner, constraint_associated, Result, ok, err, anchor,
  ◌>>◌, require, constraint,
}
use clustly_solana_escrow.State.{
  Pubkey, Bytes, config_seed, task_seed, claim_seed, EscrowConfig, EscrowTask, EscrowClaim,
}
use clustly_solana_escrow.Platform.{TokenAccount, Ledger, Platform}

-- An account that the program owns; the constructor is the discriminator.
pub data Account : Type 0 where
  config_account : EscrowConfig → Account
  task_account : EscrowTask → Account
  claim_account : EscrowClaim → Account

pub record World : Type 0 where
  pub accounts : Dict Account
  pub ledger : Ledger
  pub is_mint : Pubkey → Bool

-- What a transaction brings: its signers, and the clock.
pub record Env : Type 0 where
  pub is_signer : Pubkey → Bool
  pub now : ℤ

as_config : Option Account → Result EscrowConfig
as_config (some (config_account c)) = ok c
as_config _ = err (anchor account_not_initialized)

as_task : Option Account → Result EscrowTask
as_task (some (task_account t)) = ok t
as_task _ = err (anchor account_not_initialized)

as_claim : Option Account → Result EscrowClaim
as_claim (some (claim_account c)) = ok c
as_claim _ = err (anchor account_not_initialized)

as_token : Option TokenAccount → Result TokenAccount
as_token (some v) = ok v
as_token none = err (anchor account_not_initialized)

unfoldable pub load_config : World → Pubkey → Result EscrowConfig
unfolding as_config
load_config w k = as_config (lookup k w.accounts)

unfoldable pub load_task : World → Pubkey → Result EscrowTask
unfolding as_task
load_task w k = as_task (lookup k w.accounts)

unfoldable pub load_claim : World → Pubkey → Result EscrowClaim
unfolding as_claim
load_claim w k = as_claim (lookup k w.accounts)

unfoldable pub load_token : Ledger → Pubkey → Result TokenAccount
unfolding as_token
load_token l k = as_token (l k)

abbrev pub load_mint : World → Pubkey → Result (Unit {0})
load_mint w k = constraint (w.is_mint k) account_not_initialized

-- `Signer<'info>`.
abbrev pub signer : Env → Pubkey → Result (Unit {0})
signer env k = constraint (env.is_signer k) account_not_signer

abbrev pub is_key : Pubkey → Option Pubkey → Bool
is_key k none = false
is_key k (some j) = j == k

-- `seeds = [...], bump = stored`.
abbrev pub has_seeds : Platform → Pubkey → List Bytes → ℕ → Result (Unit {0})
has_seeds p k seeds bump =
    constraint (is_key k (p.create_program_address seeds bump)) constraint_seeds

abbrev pub config_seeds : List Bytes
config_seeds = config_seed ∷ []

abbrev pub task_seeds : Bytes → List Bytes
task_seeds task_id = task_seed ∷ task_id ∷ []

abbrev pub claim_seeds : Bytes → List Bytes
claim_seeds claim_id = claim_seed ∷ claim_id ∷ []

-- `has_one = field @ error` and `address = field @ error`.
abbrev pub has_one : Pubkey → Pubkey → EscrowError → Result (Unit {0})
has_one stored given e = require (stored == given) e

-- `token::mint = mint`.
abbrev pub token_mint : TokenAccount → Pubkey → Result (Unit {0})
token_mint v mint = constraint (v.mint == mint) constraint_token_mint

-- `token::mint = mint, token::authority = authority`.
abbrev pub token_of : TokenAccount → Pubkey → Pubkey → Result (Unit {0})
token_of v mint authority = do
  token_mint v mint
  constraint (v.owner == authority) constraint_token_owner

-- `associated_token::mint = mint, associated_token::authority = authority`.
abbrev pub associated_of : Platform → Pubkey → TokenAccount → Pubkey → Pubkey → Result (Unit {0})
associated_of p k v mint authority = do
  constraint (v.owner == authority) constraint_token_owner
  constraint (p.associated_token authority mint == k) constraint_associated

abbrev pub is_unused : Option Account → Bool
is_unused none = true
is_unused (some _) = false

-- `init, seeds = [...], bump`: the canonical address, not in use. It returns the bump.
abbrev pub init_pda : Platform → World → Pubkey → List Bytes → Result ℕ
init_pda p w k seeds = do
  let (address, bump) = p.find_program_address seeds
  constraint (address == k) constraint_seeds
  constraint (is_unused (lookup k w.accounts)) account_in_use
  ok bump

-- `init, associated_token::mint = mint, associated_token::authority = authority`.
abbrev pub init_associated : Platform → Ledger → Pubkey → Pubkey → Pubkey → Result Ledger
init_associated p l k mint authority = do
  constraint (p.associated_token authority mint == k) constraint_associated
  p.create_associated l authority mint

-- The write of an account back to the chain, at the end of an instruction.
abbrev pub store : Pubkey → Account → World → World
store k a w = record w { accounts = insert k a w.accounts }
