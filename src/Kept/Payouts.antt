-- ===== src/Kept/Payouts.antt =====
-- Approvals and rulings (claim.rs, dispute.rs) against their promises.
use clustly_solana_escrow.Base.{◌≡◌, ◌∙◌, ◌==◌, arith}
use clustly_solana_escrow.Error.{
  invalid_state_transition, invalid_mint, auto_action_too_early, ok, >>=-eq-ok, require-ok,
}
use clustly_solana_escrow.State.{
  EscrowConfig, EscrowTask, EscrowClaim, task_status, is_open, submitted, approved, disputed,
  resolved_deliverer, resolved_poster, set_claim_status,
}
use clustly_solana_escrow.State.Status.{require_status}
use clustly_solana_escrow.Platform.{Platform}
use clustly_solana_escrow.World.{World, Env, load_config, load_task, load_claim, load_token}
use clustly_solana_escrow.Payout.{pay_deliverer, elapsed}
use clustly_solana_escrow.Claim.Approve.{
  ApproveClaim, approve_accounts, approve_claim, AutoApprove, auto_approve_accounts, auto_approve,
}
use clustly_solana_escrow.Dispute.{
  DisputeFavor, deliverer, poster, ResolveDispute, resolve_accounts, resolve_for, resolve_dispute,
  AutoResolveDispute, auto_resolve_accounts, auto_resolve_dispute,
}
use clustly_solana_escrow.Contract.Reasons.{HasSigned}
use clustly_solana_escrow.Promise.Terms.{TokenIs, PayoutAccounts}
use clustly_solana_escrow.Promise.Claims.{
  ClaimApproved, ClaimAutoApproved, DisputeExpired, RuledFor, DisputeResolved,
}
use clustly_solana_escrow.Kept.Steps.{
  keys_eq, Elapsed-window, open_byte, claim_byte, pay_deliverer-PaidOut, refund_slot-RefundedTo,
}

approve_checks :
    (p : Platform) (env : Env) (w : World) (a : ApproveClaim) {config : EscrowConfig}
    {task : EscrowTask} {claim : EscrowClaim}
    → approve_accounts p env w a ≡ ok (config, task, claim)
    → PayoutAccounts p w a.keys config task claim
      × (task.poster ≡ a.poster)
      × HasSigned env a.poster
unfolding approve_accounts load_config load_task load_claim load_token
approve_checks p env w a h = ground arith steps 10000000

auto_approve_checks :
    (p : Platform) (env : Env) (w : World) (a : AutoApprove) {config : EscrowConfig}
    {task : EscrowTask} {claim : EscrowClaim}
    → auto_approve_accounts p env w a ≡ ok (config, task, claim)
    → PayoutAccounts p w a.keys config task claim × HasSigned env a.caller
unfolding auto_approve_accounts load_config load_task load_claim load_token
auto_approve_checks p env w a h = ground arith steps 10000000

resolve_checks :
    (p : Platform) (env : Env) (w : World) (a : ResolveDispute) {config : EscrowConfig}
    {task : EscrowTask} {claim : EscrowClaim}
    → resolve_accounts p env w a ≡ ok (config, task, claim)
    → PayoutAccounts p w a.keys config task claim
      × TokenIs w.ledger a.poster_ata a.usdc_mint task.poster
      × (config.admin ≡ a.admin)
      × HasSigned env a.admin
unfolding resolve_accounts load_config load_task load_claim load_token
resolve_checks p env w a h = ground arith steps 10000000

auto_resolve_checks :
    (p : Platform) (env : Env) (w : World) (a : AutoResolveDispute) {config : EscrowConfig}
    {task : EscrowTask} {claim : EscrowClaim}
    → auto_resolve_accounts p env w a ≡ ok (config, task, claim)
    → PayoutAccounts p w a.keys config task claim × HasSigned env a.caller
unfolding auto_resolve_accounts load_config load_task load_claim load_token
auto_resolve_checks p env w a h = (
  record {
    config_is = ground arith;
    task_is = ground arith;
    claim_is = ground arith;
    mint_is = ground arith;
    belongs = ground arith;
    claimer_is = ground arith;
    vault_is = ground arith;
    claimer_ata_is = ground arith;
    fee_vault_is = ground arith;
  },
  ground arith,
)

pub approve_claim-ClaimApproved :
    (p : Platform) (env : Env) (w w' : World) (a : ApproveClaim)
    → approve_claim p env w a ≡ ok w'
    → ClaimApproved p env w w' a
unfolding approve_claim
approve_claim-ClaimApproved p env w w' a h =
    let ((config, task, claim), checked, rest) = >>=-eq-ok (approve_accounts p env w a) _ h in
    let (same, rest1) = require-ok (a.usdc_mint == config.usdc_mint) invalid_mint _ rest in
    let (op, rest2) = require-ok (is_open (task_status task)) invalid_state_transition _ rest1 in
    let (st, rest3) = require_status claim submitted invalid_state_transition _ rest2 in
    let (accounts, poster_is, signed) = approve_checks p env w a checked in
    record {
      config = config;
      task = task;
      claim = claim;
      accounts = accounts;
      pinned = keys_eq same;
      by_poster = (poster_is, signed);
      open_status = open_byte task op;
      before = claim_byte claim submitted st;
      paid = pay_deliverer-PaidOut p w w' a.keys approved config task claim rest3;
    }

pub auto_approve-ClaimAutoApproved :
    (p : Platform) (env : Env) (w w' : World) (a : AutoApprove)
    → auto_approve p env w a ≡ ok w'
    → ClaimAutoApproved p env w w' a
unfolding auto_approve
auto_approve-ClaimAutoApproved p env w w' a h =
    let ((config, task, claim), checked, rest) = >>=-eq-ok (auto_approve_accounts p env w a) _ h in
    let (same, rest1) = require-ok (a.usdc_mint == config.usdc_mint) invalid_mint _ rest in
    let (op, rest2) = require-ok (is_open (task_status task)) invalid_state_transition _ rest1 in
    let (st, rest3) = require_status claim submitted invalid_state_transition _ rest2 in
    let (late, rest4) = require-ok _ auto_action_too_early _ rest3 in
    let (last, settled, rest5) =
      >>=-eq-ok (pay_deliverer p w a.keys approved config task claim) _ rest4 in
    let (span, logged, done) = >>=-eq-ok (elapsed env.now claim.submitted_at) _ rest5 in
    let (accounts, signed) = auto_approve_checks p env w a checked in
    record {
      config = config;
      task = task;
      claim = claim;
      accounts = accounts;
      pinned = keys_eq same;
      signed = signed;
      open_status = open_byte task op;
      before = claim_byte claim submitted st;
      late = Elapsed-window claim.submitted_at env.now late;
      paid = pay_deliverer-PaidOut p w w' a.keys approved config task claim (settled ∙ done);
    }

pub auto_resolve_dispute-DisputeExpired :
    (p : Platform) (env : Env) (w w' : World) (a : AutoResolveDispute)
    → auto_resolve_dispute p env w a ≡ ok w'
    → DisputeExpired p env w w' a
unfolding auto_resolve_dispute
auto_resolve_dispute-DisputeExpired p env w w' a h =
    let ((config, task, claim), checked, rest) = >>=-eq-ok (auto_resolve_accounts p env w a) _ h in
    let (same, rest1) = require-ok (a.usdc_mint == config.usdc_mint) invalid_mint _ rest in
    let (st, rest3) = require_status claim disputed invalid_state_transition _ rest1 in
    let (late, rest4) = require-ok _ auto_action_too_early _ rest3 in
    let (last, settled, rest5) =
      >>=-eq-ok (pay_deliverer p w a.keys resolved_deliverer config task claim) _ rest4 in
    let (span, logged, done) = >>=-eq-ok (elapsed env.now claim.disputed_at) _ rest5 in
    let (accounts, signed) = auto_resolve_checks p env w a checked in
    record {
      config = config;
      task = task;
      claim = claim;
      accounts = accounts;
      pinned = keys_eq same;
      signed = signed;
      before = claim_byte claim disputed st;
      late = Elapsed-window claim.disputed_at env.now late;
      paid =
          pay_deliverer-PaidOut p w w' a.keys resolved_deliverer config task claim (settled ∙ done);
    }

resolve_for-RuledFor :
    (favor : DisputeFavor) (p : Platform) (w w' : World) (a : ResolveDispute)
    (config : EscrowConfig) (task : EscrowTask) (claim : EscrowClaim)
    → resolve_for p w a config task claim favor ≡ ok w'
    → RuledFor favor p w w' a config task claim
unfolding resolve_for
resolve_for-RuledFor deliverer p w w' a config task claim h =
    pay_deliverer-PaidOut p w w' a.keys resolved_deliverer config task claim h
resolve_for-RuledFor poster p w w' a config task claim h =
    refund_slot-RefundedTo p w w' a.task a.claim a.task_vault a.poster_ata task
      (set_claim_status resolved_poster claim) h

pub resolve_dispute-DisputeResolved :
    (p : Platform) (env : Env) (w w' : World) (a : ResolveDispute) (favor : DisputeFavor)
    → resolve_dispute p env w a favor ≡ ok w'
    → DisputeResolved p env w w' a favor
unfolding resolve_dispute
resolve_dispute-DisputeResolved p env w w' a favor h =
    let ((config, task, claim), checked, rest) = >>=-eq-ok (resolve_accounts p env w a) _ h in
    let (same, rest1) = require-ok (a.usdc_mint == config.usdc_mint) invalid_mint _ rest in
    let (st, rest2) = require_status claim disputed invalid_state_transition _ rest1 in
    let (accounts, poster_ata_is, admin_is, signed) = resolve_checks p env w a checked in
    record {
      config = config;
      task = task;
      claim = claim;
      accounts = accounts;
      pinned = keys_eq same;
      poster_ata_is = poster_ata_is;
      by_admin = (admin_is, signed);
      before = claim_byte claim disputed st;
      ruled = resolve_for-RuledFor favor p w w' a config task claim rest2;
    }
