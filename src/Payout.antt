-- ===== src/Payout.antt =====
-- What the instructions that settle a claim share. Four handlers (claim.rs: `approve_claim` and
-- `auto_approve`; dispute.rs: `resolve_dispute` in favour of the deliverer and
-- `auto_resolve_dispute`) hold the same code for the payout, and two (`reject_claim` at the limit and
-- `resolve_dispute` in favour of the poster) the same code for the refund of a slot.
use clustly_solana_escrow.Base.{ℕ, ltb, if◌then◌else◌}
use clustly_solana_escrow.Base.Int.{ℤ, ◌-ℤ◌, fits_i64}
use clustly_solana_escrow.Error.{Result, ok, err, panic, ◌>>=◌}
use clustly_solana_escrow.State.{
  Pubkey, EscrowConfig, EscrowTask, EscrowClaim, set_claim_status, ClaimStatus, compute_fee_split,
  checked_inc,
}
use clustly_solana_escrow.Platform.{Ledger, Platform}
use clustly_solana_escrow.World.{World, task_account, claim_account, store}

-- The accounts that all four payouts name.
pub record PayoutKeys : Type 0 where
  pub config : Pubkey
  pub usdc_mint : Pubkey
  pub task : Pubkey
  pub claim : Pubkey
  pub task_vault : Pubkey
  pub claimer_ata : Pubkey
  pub claimer : Pubkey
  pub fee_vault : Pubkey

-- The two transfers out of the task's vault; a transfer of nothing is not made.
unfoldable pub pay_split : Platform → Ledger → PayoutKeys → ℕ → ℕ → Result Ledger
pay_split p l a net fee = do
  paid ← if ltb 0 net then p.transfer l a.task_vault a.claimer_ata a.task net else ok l
  if ltb 0 fee then p.transfer paid a.task_vault a.fee_vault a.task fee else ok paid

-- From the split of the bounty to the end of the handler. The claim takes the given status.
unfoldable pub pay_deliverer :
    Platform
    → World
    → PayoutKeys
    → ClaimStatus
    → EscrowConfig
    → EscrowTask
    → EscrowClaim
    → Result World
pay_deliverer p w a final config task claim = do
  (net, fee) ← compute_fee_split task.bounty config.fee_bps
  ledger ← pay_split p w.ledger a net fee
  slots ← checked_inc 16 task.slots_approved
  ok (
      store a.claim (claim_account (set_claim_status final claim)) (
        store a.task (task_account (record task { slots_approved = slots }))
          (record w { ledger = ledger })))

-- The bounty of one slot goes back to the poster, and the claim is written as given.
unfoldable pub refund_slot :
    Platform → World → Pubkey → Pubkey → Pubkey → Pubkey → EscrowTask → EscrowClaim → Result World
refund_slot p w task_key claim_key vault poster_ata task claim = do
  ledger ← p.transfer w.ledger vault poster_ata task_key task.bounty
  slots ← checked_inc 16 task.slots_refunded
  ok (
      store claim_key (claim_account claim) (
        store task_key (task_account (record task { slots_refunded = slots }))
          (record w { ledger = ledger })))

-- `now - since` of the log lines, which panics on overflow (`overflow-checks = true`).
unfoldable pub elapsed : ℤ → ℤ → Result ℤ
elapsed now since = if fits_i64 (now -ℤ since) then ok (now -ℤ since) else err panic
