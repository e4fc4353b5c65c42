-- ===== src/Dispute.antt =====
-- instructions/dispute.rs: a rejected claimer calls for the admin, who pays or refunds; after fourteen
-- days without a decision anybody may have the claimer paid.
use clustly_solana_escrow.Base.{◌&&◌, ◌==◌}
use clustly_solana_escrow.Base.Int.{pos, ltb_ℤ, leb_ℤ, saturating_sub_i64}
use clustly_solana_escrow.Error.{
  unauthorized, invalid_state_transition, task_claim_mismatch, invalid_mint, auto_action_too_early,
  Result, ok, ◌>>=◌, ◌>>◌, require,
}
use clustly_solana_escrow.State.{
  Pubkey, EscrowConfig, EscrowTask, EscrowClaim, claim_status, status_eq, set_claim_status,
  rejected, disputed, resolved_deliverer, resolved_poster, auto_dispute_window_secs,
}
use clustly_solana_escrow.Platform.{Platform}
use clustly_solana_escrow.World.{
  World, Env, claim_account, load_config, load_task, load_claim, load_token, load_mint, signer,
  has_seeds, config_seeds, task_seeds, claim_seeds, has_one, token_of, associated_of, store,
}
use clustly_solana_escrow.Payout.{PayoutKeys, pay_deliverer, refund_slot, elapsed}

pub record OpenDispute : Type 0 where
  pub claimer : Pubkey
  pub task : Pubkey
  pub claim : Pubkey

unfoldable pub open_dispute_accounts :
    Platform → Env → World → OpenDispute → Result (EscrowTask × EscrowClaim)
open_dispute_accounts p env w a = do
  signer env a.claimer
  task ← load_task w a.task
  claim ← load_claim w a.claim
  has_seeds p a.task (task_seeds task.task_id) task.bump
  has_seeds p a.claim (claim_seeds claim.claim_id) claim.bump
  has_one claim.claimer a.claimer unauthorized
  has_one claim.task a.task task_claim_mismatch
  ok (task, claim)

unfoldable pub open_dispute : Platform → Env → World → OpenDispute → Result World
open_dispute p env w a = do
  (task, claim) ← open_dispute_accounts p env w a
  current ← claim_status claim
  require (status_eq current rejected) invalid_state_transition
  ok (
      store a.claim
        (claim_account (record (set_claim_status disputed claim) { disputed_at = env.now })) w)

pub data DisputeFavor : Type 0 where
  deliverer poster : DisputeFavor

pub record ResolveDispute : Type 0 where
  pub admin : Pubkey
  pub keys : PayoutKeys
  pub open keys use *
  pub poster_ata : Pubkey

unfoldable pub resolve_accounts :
    Platform → Env → World → ResolveDispute → Result (EscrowConfig × EscrowTask × EscrowClaim)
resolve_accounts p env w a = do
  signer env a.admin
  config ← load_config w a.config
  load_mint w a.usdc_mint
  task ← load_task w a.task
  claim ← load_claim w a.claim
  vault ← load_token w.ledger a.task_vault
  claimer_ata ← load_token w.ledger a.claimer_ata
  poster_ata ← load_token w.ledger a.poster_ata
  fee_vault ← load_token w.ledger a.fee_vault
  has_seeds p a.config config_seeds config.bump
  has_one config.admin a.admin unauthorized
  has_seeds p a.task (task_seeds task.task_id) task.bump
  has_seeds p a.claim (claim_seeds claim.claim_id) claim.bump
  has_one claim.task a.task task_claim_mismatch
  associated_of p a.task_vault vault a.usdc_mint a.task
  has_one claim.claimer a.claimer unauthorized
  associated_of p a.claimer_ata claimer_ata a.usdc_mint a.claimer
  token_of poster_ata a.usdc_mint task.poster
  associated_of p a.fee_vault fee_vault a.usdc_mint a.config
  ok (config, task, claim)

-- The `match` on the decision.
unfoldable pub resolve_for :
    Platform
    → World
    → ResolveDispute
    → EscrowConfig
    → EscrowTask
    → EscrowClaim
    → DisputeFavor
    → Result World
resolve_for p w a config task claim deliverer =
    pay_deliverer p w a.keys resolved_deliverer config task claim
resolve_for p w a config task claim poster =
    refund_slot p w a.task a.claim a.task_vault a.poster_ata task
      (set_claim_status resolved_poster claim)

unfoldable pub resolve_dispute :
    Platform → Env → World → ResolveDispute → DisputeFavor → Result World
resolve_dispute p env w a favor = do
  (config, task, claim) ← resolve_accounts p env w a
  require (a.usdc_mint == config.usdc_mint) invalid_mint
  current ← claim_status claim
  require (status_eq current disputed) invalid_state_transition
  resolve_for p w a config task claim favor

pub record AutoResolveDispute : Type 0 where
  pub caller : Pubkey
  pub keys : PayoutKeys
  pub open keys use *

unfoldable pub auto_resolve_accounts :
    Platform → Env → World → AutoResolveDispute → Result (EscrowConfig × EscrowTask × EscrowClaim)
auto_resolve_accounts p env w a = do
  signer env a.caller
  config ← load_config w a.config
  load_mint w a.usdc_mint
  task ← load_task w a.task
  claim ← load_claim w a.claim
  vault ← load_token w.ledger a.task_vault
  claimer_ata ← load_token w.ledger a.claimer_ata
  fee_vault ← load_token w.ledger a.fee_vault
  has_seeds p a.config config_seeds config.bump
  has_seeds p a.task (task_seeds task.task_id) task.bump
  has_seeds p a.claim (claim_seeds claim.claim_id) claim.bump
  has_one claim.task a.task task_claim_mismatch
  associated_of p a.task_vault vault a.usdc_mint a.task
  has_one claim.claimer a.claimer unauthorized
  associated_of p a.claimer_ata claimer_ata a.usdc_mint a.claimer
  associated_of p a.fee_vault fee_vault a.usdc_mint a.config
  ok (config, task, claim)

unfoldable pub auto_resolve_dispute : Platform → Env → World → AutoResolveDispute → Result World
auto_resolve_dispute p env w a = do
  (config, task, claim) ← auto_resolve_accounts p env w a
  require (a.usdc_mint == config.usdc_mint) invalid_mint
  current ← claim_status claim
  require (status_eq current disputed) invalid_state_transition
  require
      (ltb_ℤ (pos 0) claim.disputed_at
        && leb_ℤ auto_dispute_window_secs (saturating_sub_i64 env.now claim.disputed_at))
      auto_action_too_early
  w' ← pay_deliverer p w a.keys resolved_deliverer config task claim
  _ ← elapsed env.now claim.disputed_at
  ok w'
