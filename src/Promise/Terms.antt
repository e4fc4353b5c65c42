-- ===== src/Promise/Terms.antt =====
-- The words of the promises: the accounts that an instruction names, what it has the token program
-- do, and the times. Nothing here is taken from the handlers.
use clustly_solana_escrow.Base.{ℕ, ◌+◌, ◌*◌, ◌/◌, ◌%◌, ◌^◌, ◌<◌, ◌≡◌, ◌⊎◌, true, Option, none, some}
use clustly_solana_escrow.Base.Int.{ℤ, pos, ◌≤ℤ◌}
use clustly_solana_escrow.Error.{ok}
use clustly_solana_escrow.State.{Pubkey, EscrowConfig, EscrowTask, EscrowClaim}
use clustly_solana_escrow.Platform.{TokenAccount, Ledger, Platform, balance_of}
use clustly_solana_escrow.World.{
  World, task_account, claim_account, config_seeds, task_seeds, claim_seeds, store,
}
use clustly_solana_escrow.Payout.{PayoutKeys}
use clustly_solana_escrow.Contract.Reasons.{IsOwned, ConfigAt, TaskAt, ClaimAt}

-- The account is on the chain, at the address that its seeds and its bump derive.
abbrev pub ConfigIs : Platform → World → Pubkey → EscrowConfig → Type 0
ConfigIs p w k c = ConfigAt w k c × (p.create_program_address config_seeds c.bump ≡ some k)

abbrev pub TaskIs : Platform → World → Pubkey → EscrowTask → Type 0
TaskIs p w k t = TaskAt w k t × (p.create_program_address (task_seeds t.task_id) t.bump ≡ some k)

abbrev pub ClaimIs : Platform → World → Pubkey → EscrowClaim → Type 0
ClaimIs p w k c =
    ClaimAt w k c × (p.create_program_address (claim_seeds c.claim_id) c.bump ≡ some k)

-- The account is the owner's associated token account.
abbrev pub AssociatedIs : Platform → Ledger → Pubkey → Pubkey → Pubkey → Type 0
AssociatedIs p l k mint owner = IsOwned (l k) owner × (p.associated_token owner mint ≡ k)

-- A token account of a mint.
abbrev pub HasMint : Option TokenAccount → Pubkey → Type 0
HasMint none mint = ⊥
HasMint (some v) mint = v.mint ≡ mint

-- A token account of the mint and the owner, at whatever address.
abbrev pub TokenIs : Ledger → Pubkey → Pubkey → Pubkey → Type 0
TokenIs l k mint owner = HasMint (l k) mint × IsOwned (l k) owner

-- The token program moves the amount, if there is any.
abbrev pub Transferred : Platform → Ledger → Pubkey → Pubkey → Pubkey → ℕ → Ledger → Type 0
Transferred p l from to authority n l' =
    ((n ≡ 0) × (l ≡ l')) ⊎ ((0 < n) × (p.transfer l from to authority n ≡ ok l'))

-- All that the vault holds goes to the poster's account, and the vault is closed.
pub record VaultEmptied (p : Platform) (l : Ledger) (task vault poster_ata : Pubkey) (l' : Ledger)
    : Type 0 where
  pub between : Ledger
  pub moves : Transferred p l vault poster_ata task (balance_of (l vault)) between
  pub closes : p.close_account between vault task ≡ ok l'

-- The account is opened if it was missing, and is the one that is meant if it was there.
pub data AccountReady (p : Platform) (l : Ledger) (k mint owner : Pubkey) (l' : Ledger)
    : Type 0 where
  missing : l k ≡ none → p.create_associated l owner mint ≡ ok l' → AccountReady p l k mint owner l'
  present : TokenIs l k mint owner → l ≡ l' → AccountReady p l k mint owner l'

-- The task has a deadline, and it has come.
abbrev pub DeadlinePassed : EscrowTask → ℤ → Type 0
DeadlinePassed t now = (pos 1 ≤ℤ t.task_deadline_ts) × (t.task_deadline_ts ≤ℤ now)

-- The accounts that a payout names.
pub record PayoutAccounts (p : Platform) (w : World) (a : PayoutKeys) (config : EscrowConfig)
    (task : EscrowTask) (claim : EscrowClaim) : Type 0 where
  pub config_is : ConfigIs p w a.config config
  pub task_is : TaskIs p w a.task task
  pub claim_is : ClaimIs p w a.claim claim
  pub mint_is : w.is_mint a.usdc_mint ≡ true
  pub belongs : claim.task ≡ a.task
  pub claimer_is : claim.claimer ≡ a.claimer
  pub vault_is : AssociatedIs p w.ledger a.task_vault a.usdc_mint a.task
  pub claimer_ata_is : AssociatedIs p w.ledger a.claimer_ata a.usdc_mint a.claimer
  pub fee_vault_is : AssociatedIs p w.ledger a.fee_vault a.usdc_mint a.config

-- The bounty leaves the vault: the fee, the share of the rate rounded down to a 64-bit number, for
-- the fee vault, the rest for the claimer; the claim takes the status byte, the task counts one
-- more approval.
pub record PaidOut (p : Platform) (w w' : World) (a : PayoutKeys) (status : ℕ)
    (config : EscrowConfig) (task : EscrowTask) (claim : EscrowClaim) : Type 0 where
  pub net : ℕ
  pub fee : ℕ
  pub between : Ledger
  pub ledger : Ledger
  pub share : fee ≡ task.bounty * config.fee_bps / 10_000 % 2 ^ 64
  pub whole : net + fee ≡ task.bounty
  pub to_claimer : Transferred p w.ledger a.task_vault a.claimer_ata a.task net between
  pub to_fee_vault : Transferred p between a.task_vault a.fee_vault a.task fee ledger
  pub written :
      w'
      ≡ store a.claim (claim_account (record claim { status = status })) (
          store a.task
            (task_account (record task { slots_approved = task.slots_approved + 1 }))
            (record w { ledger = ledger }))

-- The bounty of a slot goes from the vault to the poster's account; the claim is written as given,
-- and the task counts one more refund.
pub record RefundedTo (p : Platform) (w w' : World) (task_key claim_key vault poster_ata : Pubkey)
    (task : EscrowTask) (claim' : EscrowClaim) : Type 0 where
  pub ledger : Ledger
  pub to_poster : p.transfer w.ledger vault poster_ata task_key task.bounty ≡ ok ledger
  pub written :
      w'
      ≡ store claim_key (claim_account claim') (
          store task_key
            (task_account (record task { slots_refunded = task.slots_refunded + 1 }))
            (record w { ledger = ledger }))
