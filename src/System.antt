-- ===== src/System.antt =====
-- The chain over time: transactions of this program, in any order and by anybody, and what other
-- programs do to the token accounts meanwhile.
use clustly_solana_escrow.Base.{◌≤◌, ◌≡◌, ◌≢◌, Bool, none, some, List}
use clustly_solana_escrow.Base.Dict.{lookup}
use clustly_solana_escrow.Error.{ok}
use clustly_solana_escrow.State.{Pubkey, Bytes, EscrowConfig}
use clustly_solana_escrow.Platform.{Ledger, Platform, balance_of}
use clustly_solana_escrow.World.{World, Env, config_account}
use clustly_solana_escrow.Program.{Instruction, process}
use clustly_solana_escrow.Contract.Reasons.{IsOwned, HasSigned}

-- A key that can sign: no account of this program, nor an address that it derives.
pub record IsWallet (p : Platform) (w : World) (k : Pubkey) : Type 0 where
  pub no_account : lookup k w.accounts ≡ none
  pub underived : (seeds : List Bytes) → (p.find_program_address seeds).0 ≢ k

-- Program derived addresses have no private key: only wallets sign.
abbrev pub WalletsSign : Platform → Env → World → Type 0
WalletsSign p env w = (k : Pubkey) → HasSigned env k → IsWallet p w k

-- What others may do to the tokens: the accounts of this program's addresses only gain.
abbrev pub OthersAct : World → Ledger → Type 0
OthersAct w l =
    (x q : Pubkey)
    → IsOwned (w.ledger x) q
    → lookup q w.accounts ≢ none
    → IsOwned (l x) q × (balance_of (w.ledger x) ≤ balance_of (l x))

pub data Step (p : Platform) (w w' : World) : Type 0 where
  executes :
      (env : Env) (i : Instruction) → WalletsSign p env w → process p env w i ≡ ok w' → Step p w w'
  others_act :
      (l : Ledger) (mints : Pubkey → Bool)
      → OthersAct w l
      → w' ≡ record w { ledger = l; is_mint = mints }
      → Step p w w'

pub data Reach (p : Platform) (s : World) : World → Type 0 where
  start : Reach p s s
  later : {w w' : World} → Reach p s w → Step p w w' → Reach p s w'

-- No configuration pins another mint than before.
abbrev pub SameMint : World → World → Type 0
SameMint w w' =
    (k : Pubkey) (c c' : EscrowConfig)
    → lookup k w.accounts ≡ some (config_account c)
    → lookup k w'.accounts ≡ some (config_account c')
    → c'.usdc_mint ≡ c.usdc_mint

-- The mint is never changed on the way.
pub data ReachPinned (p : Platform) (s : World) : World → Type 0 where
  start : ReachPinned p s s
  later : {w w' : World} → ReachPinned p s w → Step p w w' → SameMint w w' → ReachPinned p s w'
