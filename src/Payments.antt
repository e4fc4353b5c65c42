-- ===== src/Payments.antt =====
-- The amounts that the payouts of claim.rs and dispute.rs move.
pub mod Split
pub mod Progress
use clustly_solana_escrow.Base.{
  ◌%◌, ℕ, ◌+◌, ◌*◌, ◌/◌, ◌^◌, ◌≤◌, ◌<◌, ◌≡◌, ◌≢◌, sym, ap, ◌∙◌, none, some, arith,
}
use clustly_solana_escrow.Base.Dict.{lookup}
use clustly_solana_escrow.Error.{ok}
use clustly_solana_escrow.State.{
  Pubkey, EscrowConfig, EscrowTask, EscrowClaim, fee_bps_cap, bps_denominator,
}
use clustly_solana_escrow.Platform.{Platform, balance_of}
use clustly_solana_escrow.Platform.Laws.{Laws}
use clustly_solana_escrow.World.{World, Env, Account, config_account, task_account}
use clustly_solana_escrow.Payout.{PayoutKeys}
use clustly_solana_escrow.Claim.Approve.{ApproveClaim, approve_claim, AutoApprove, auto_approve}
use clustly_solana_escrow.Dispute.{AutoResolveDispute, auto_resolve_dispute}
use clustly_solana_escrow.Contract.Reasons.{ConfigAt, TaskAt, ClaimAt, Elapsed}
use clustly_solana_escrow.Slots.Defs.{IsSound}
use clustly_solana_escrow.Kept.Payouts.{
  approve_claim-ClaimApproved, auto_approve-ClaimAutoApproved, auto_resolve_dispute-DisputeExpired,
}
use clustly_solana_escrow.Promise.Terms.{PayoutAccounts, PaidOut}
use Split.{PaidOut-SplitAmounts}

same_task : (w : World) (k : Pubkey) {t u : EscrowTask} → TaskAt w k t → TaskAt w k u → t ≡ u
same_task w k h g = ground arith

same_config :
    (w : World) (k : Pubkey) {t u : EscrowConfig} → ConfigAt w k t → ConfigAt w k u → t ≡ u
same_config w k h g = ground arith

same_claim : (w : World) (k : Pubkey) {c d : EscrowClaim} → ClaimAt w k c → ClaimAt w k d → c ≡ d
same_claim w k h g = ground arith

keys_apart :
    (w : World) (j k : Pubkey) (c : EscrowConfig) (t : EscrowTask)
    → ConfigAt w j c
    → TaskAt w k t
    → k ≢ j
keys_apart w j k c t h g e = ground arith

absent_apart :
    (w : World) (j k : Pubkey) (a : Account)
    → lookup j w.accounts ≡ none
    → lookup k w.accounts ≡ some a
    → j ≢ k
absent_apart w j k a h g e = ground arith

-- The amounts by which the three token accounts of a payout change.
pub record PaidAmounts (w w' : World) (a : PayoutKeys) (bounty fee_bps : ℕ) : Type 0 where
  pub from_vault : balance_of (w'.ledger a.task_vault) + bounty ≡ balance_of (w.ledger a.task_vault)
  pub to_claimer :
      balance_of (w'.ledger a.claimer_ata) + bounty * fee_bps / bps_denominator
      ≡ balance_of (w.ledger a.claimer_ata) + bounty
  pub to_fee_vault :
      balance_of (w'.ledger a.fee_vault)
      ≡ balance_of (w.ledger a.fee_vault) + bounty * fee_bps / bps_denominator

share-le :
    (bounty fee_bps : ℕ) → fee_bps ≤ fee_bps_cap → bounty * fee_bps ≤ bounty * bps_denominator
share-le bounty fee_bps h = grind arith

-- The share of a 64-bit bounty fits in 64 bits.
share_fits :
    (bounty fee_bps : ℕ)
    → bounty < 2 ^ 64
    → fee_bps ≤ fee_bps_cap
    → bounty * fee_bps / bps_denominator % 2 ^ 64 ≡ bounty * fee_bps / bps_denominator
share_fits bounty fee_bps hb hf = omega (arith, share-le bounty fee_bps hf)

PaidOut-PaidAmounts :
    {p : Platform} (laws : Laws p) {w w' : World} {a : PayoutKeys} {status : ℕ}
    {config : EscrowConfig} {task : EscrowTask} {claim : EscrowClaim}
    → IsSound w
    → lookup claim.claimer w.accounts ≡ none
    → task.bounty < 2 ^ 64
    → PayoutAccounts p w a config task claim
    → PaidOut p w w' a status config task claim
    → PaidAmounts w w' a task.bounty config.fee_bps
PaidOut-PaidAmounts laws {w} {w'} {a} {config = config} {task} {claim} s wallet small f m =
    let config_task = keys_apart w a.config a.task config task f.config_is.0 f.task_is.0 in
    let gone : lookup a.claimer w.accounts ≡ none =
      ap (λ k. lookup k w.accounts) (sym f.claimer_is) ∙ wallet in
    let x =
      PaidOut-SplitAmounts laws f.vault_is.0 f.claimer_ata_is.0 f.fee_vault_is.0
        (absent_apart w a.claimer a.task (task_account task) gone f.task_is.0)
        (absent_apart w a.claimer a.config (config_account config) gone f.config_is.0) config_task
        m in
    let fits =
      share_fits task.bounty config.fee_bps small (s.configs a.config config f.config_is.0) in
    let fee_is : m.fee ≡ task.bounty * config.fee_bps / bps_denominator = m.share ∙ fits in
    rw m.written (record {
      from_vault = omega (arith, x.from_vault, m.whole);
      to_claimer = omega (arith, x.to_claimer, m.whole, fee_is);
      to_fee_vault = omega (arith, x.to_fee_vault, fee_is);
    })

module _ {p : Platform} (laws : Laws p) (env : Env) (w w' : World) (task : EscrowTask)
    (config : EscrowConfig) (claim : EscrowClaim) (s : IsSound w)
    (wallet : lookup claim.claimer w.accounts ≡ none) (small : task.bounty < 2 ^ 64) where
  -- The accounts that the payout has found are the ones that are given.
  PaidOut-pays :
      (a : PayoutKeys) {status : ℕ} {config' : EscrowConfig} {task' : EscrowTask}
      {claim' : EscrowClaim}
      → TaskAt w a.task task
      → ConfigAt w a.config config
      → ClaimAt w a.claim claim
      → PayoutAccounts p w a config' task' claim'
      → PaidOut p w w' a status config' task' claim'
      → PaidAmounts w w' a task.bounty config.fee_bps
  PaidOut-pays a th ch lh f m =
      let te = same_task w a.task th f.task_is.0 in
      let ce = same_config w a.config ch f.config_is.0 in
      let le = same_claim w a.claim lh f.claim_is.0 in
      rw (te, ce)
        (PaidOut-PaidAmounts laws s
          (ap (λ c. lookup (EscrowClaim.claimer c) w.accounts) (sym le) ∙ wallet) (rw te at small) f
          m)

  -- An approval that succeeds on a sound chain, for a bounty of 64 bits and a claimer at whose
  -- key no account of the program stands, takes exactly the bounty of one slot out of the task's
  -- vault: the fee, which is the rate's share of the bounty rounded down, goes into the fee vault
  -- and the whole rest to the claimer.
  pub approve_claim_pays :
      (a : ApproveClaim)
      → TaskAt w a.keys.task task
      → ConfigAt w a.keys.config config
      → ClaimAt w a.keys.claim claim
      → approve_claim p env w a ≡ ok w'
      → PaidAmounts w w' a.keys task.bounty config.fee_bps
  approve_claim_pays a th ch lh h =
      let m = approve_claim-ClaimApproved p env w w' a h in
      PaidOut-pays a.keys th ch lh m.accounts m.paid

  -- An automatic approval that succeeds on a sound chain, for a bounty of 64 bits and a claimer
  -- at whose key no account of the program stands, takes exactly the bounty out of the vault and
  -- splits it between claimer and fee vault as an approval does, and the claim was submitted at
  -- least fourteen days before.
  pub auto_approve_pays :
      (a : AutoApprove)
      → TaskAt w a.keys.task task
      → ConfigAt w a.keys.config config
      → ClaimAt w a.keys.claim claim
      → auto_approve p env w a ≡ ok w'
      → PaidAmounts w w' a.keys task.bounty config.fee_bps × Elapsed claim.submitted_at env.now
  auto_approve_pays a th ch lh h =
      let m = auto_approve-ClaimAutoApproved p env w w' a h in
      let same : claim ≡ m.claim = same_claim w a.keys.claim lh m.accounts.claim_is.0 in
      (PaidOut-pays a.keys th ch lh m.accounts m.paid, rw same m.late)

  -- An automatic resolution that succeeds on a sound chain, for a bounty of 64 bits and a claimer
  -- at whose key no account of the program stands, takes exactly the bounty out of the vault and
  -- splits it between claimer and fee vault as an approval does.
  pub auto_resolve_dispute_pays :
      (a : AutoResolveDispute)
      → TaskAt w a.keys.task task
      → ConfigAt w a.keys.config config
      → ClaimAt w a.keys.claim claim
      → auto_resolve_dispute p env w a ≡ ok w'
      → PaidAmounts w w' a.keys task.bounty config.fee_bps
  auto_resolve_dispute_pays a th ch lh h =
      let m = auto_resolve_dispute-DisputeExpired p env w w' a h in
      PaidOut-pays a.keys th ch lh m.accounts m.paid
