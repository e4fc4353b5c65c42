-- ===== src/Contract/Claims.antt =====
-- The transitions of claims: enrolment, moves, payouts and refunds.
use clustly_solana_escrow.Base.{◌+◌, ◌<◌, ◌≡◌, ◌≢◌, ◌⊎◌, none}
use clustly_solana_escrow.Base.Dict.{lookup}
use clustly_solana_escrow.Error.{ok}
use clustly_solana_escrow.State.{
  Pubkey, EscrowConfig, EscrowTask, EscrowClaim, task_status, claim_status, open_task, ClaimStatus,
  claim_status_to_u8, enrolled, max_rejections,
}
use clustly_solana_escrow.Platform.{Ledger, Platform}
use clustly_solana_escrow.World.{World, Env, task_account, claim_account, store}
use clustly_solana_escrow.Payout.{PayoutKeys}
use clustly_solana_escrow.Promise.Terms.{PayoutAccounts, PaidOut, AccountReady}
use clustly_solana_escrow.Contract.Reasons.{
  IsOwned, ConfigAt, TaskAt, ClaimAt, HasSigned, Move, mover, PayReason, RefundReason,
}

pub record Paid (p : Platform) (env : Env) (w w' : World) : Type 0 where
  pub keys : PayoutKeys
  pub config : EscrowConfig
  pub task : EscrowTask
  pub claim : EscrowClaim
  pub final : ClaimStatus
  pub facts : PayoutAccounts p w keys config task claim
  pub mint_pinned : keys.usdc_mint ≡ config.usdc_mint
  pub reason : PayReason env config task claim final
  pub settled : PaidOut p w w' keys (claim_status_to_u8 final) config task claim

pub record Refunded (p : Platform) (env : Env) (w w' : World) : Type 0 where
  pub config_key : Pubkey
  pub task_key : Pubkey
  pub claim_key : Pubkey
  pub vault : Pubkey
  pub poster_ata : Pubkey
  pub config : EscrowConfig
  pub task : EscrowTask
  pub claim : EscrowClaim
  pub claim' : EscrowClaim
  pub ledger : Ledger
  pub config_at : ConfigAt w config_key config
  pub task_at : TaskAt w task_key task
  pub claim_at : ClaimAt w claim_key claim
  pub belongs : claim.task ≡ task_key
  pub vault_owned : IsOwned (w.ledger vault) task_key
  pub vault_at : p.associated_token task_key config.usdc_mint ≡ vault
  pub poster_owned : IsOwned (w.ledger poster_ata) task.poster
  pub reason : RefundReason env config task claim claim'
  pub transferred : p.transfer w.ledger vault poster_ata task_key task.bounty ≡ ok ledger
  pub written :
      w'
      ≡ store claim_key (claim_account claim') (
          store task_key
            (task_account (record task { slots_refunded = task.slots_refunded + 1 }))
            (record w { ledger = ledger }))

-- A claim moves on, on the word of the party whose turn it is; nothing else changes.
pub record ClaimMoved (env : Env) (w w' : World) : Type 0 where
  pub claim_key : Pubkey
  pub task : EscrowTask
  pub claim : EscrowClaim
  pub claim' : EscrowClaim
  pub before : ClaimStatus
  pub after : ClaimStatus
  pub task_at : TaskAt w claim.task task
  pub claim_at : ClaimAt w claim_key claim
  pub read : claim_status claim ≡ ok before
  pub move : Move before after
  pub becomes : claim_status claim' ≡ ok after
  pub same_task : claim'.task ≡ claim.task
  pub same_claimer : claim'.claimer ≡ claim.claimer
  pub rejections_kept :
      (claim'.rejections ≡ claim.rejections)
      ⊎ ((claim'.rejections ≡ claim.rejections + 1) × (claim.rejections + 1 < max_rejections))
  pub signed : HasSigned env (mover move task claim)
  pub written : w' ≡ store claim_key (claim_account claim') w

-- A new claim takes a slot of an open task.
pub record SlotTaken (p : Platform) (env : Env) (w w' : World) : Type 0 where
  pub task_key : Pubkey
  pub claim_key : Pubkey
  pub ata : Pubkey
  pub mint : Pubkey
  pub task : EscrowTask
  pub claim : EscrowClaim
  pub ledger : Ledger
  pub task_at : TaskAt w task_key task
  pub unused : lookup claim_key w.accounts ≡ none
  pub is_open_task : task_status task ≡ open_task
  pub room : task.slots_enrolled < task.max_slots
  pub signed : HasSigned env claim.claimer
  pub not_poster : claim.claimer ≢ task.poster
  pub status : claim_status claim ≡ ok enrolled
  pub no_rejections : claim.rejections ≡ 0
  pub belongs : claim.task ≡ task_key
  pub account_ready : AccountReady p w.ledger ata mint claim.claimer ledger
  pub written :
      w'
      ≡ store claim_key (claim_account claim) (
          store task_key
            (task_account (record task { slots_enrolled = task.slots_enrolled + 1 }))
            (record w { ledger = ledger }))
