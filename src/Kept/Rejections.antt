-- ===== src/Kept/Rejections.antt =====
-- Rejections (claim.rs) against their promise.
use clustly_solana_escrow.Base.{ℕ, ◌+◌, ◌≡◌, inl, inr, sym, leb, if◌then◌else◌, arith, Bool-cases}
use clustly_solana_escrow.Error.{invalid_state_transition, ok, >>=-eq-ok, require-ok, ok-injective}
use clustly_solana_escrow.State.{
  EscrowConfig, EscrowTask, EscrowClaim, task_status, is_open, set_claim_status, submitted,
  rejected, cancelled, checked_inc, max_rejections,
}
use clustly_solana_escrow.State.Status.{require_status}
use clustly_solana_escrow.Platform.{Platform}
use clustly_solana_escrow.World.{
  World, Env, claim_account, load_config, load_task, load_claim, load_token, store,
}
use clustly_solana_escrow.Payout.{refund_slot}
use clustly_solana_escrow.Claim.Reject.{RejectClaim, reject_accounts, reject_claim}
use clustly_solana_escrow.Contract.Reasons.{HasSigned}
use clustly_solana_escrow.Promise.Terms.{ConfigIs, TaskIs, ClaimIs, AssociatedIs, TokenIs}
use clustly_solana_escrow.Promise.Claims.{
  RejectionCounted, sent_back, cancelled_for_good, ClaimRejected,
}
use clustly_solana_escrow.Kept.Steps.{
  checked_inc_sound, open_byte, claim_byte, refund_slot-RefundedTo,
}

record RejectionChecks (p : Platform) (env : Env) (w : World) (a : RejectClaim)
    (config : EscrowConfig) (task : EscrowTask) (claim : EscrowClaim) : Type 0 where
  config_is : ConfigIs p w a.config config
  task_is : TaskIs p w a.task task
  claim_is : ClaimIs p w a.claim claim
  belongs : claim.task ≡ a.task
  vault_is : AssociatedIs p w.ledger a.task_vault config.usdc_mint a.task
  poster_ata_is : TokenIs w.ledger a.poster_ata config.usdc_mint task.poster
  by_poster : (task.poster ≡ a.poster) × HasSigned env a.poster

rejection_checks :
    (p : Platform) (env : Env) (w : World) (a : RejectClaim) {config : EscrowConfig}
    {task : EscrowTask} {claim : EscrowClaim}
    → reject_accounts p env w a ≡ ok (config, task, claim)
    → RejectionChecks p env w a config task claim
unfolding reject_accounts load_config load_task load_claim load_token
rejection_checks p env w a h = ground arith steps 10000000

-- What follows the checks of a rejection.
rejection_counted :
    (p : Platform) (w w' : World) (a : RejectClaim) (task : EscrowTask) (claim : EscrowClaim)
    (n : ℕ)
    → n ≡ claim.rejections + 1
    → (if leb max_rejections n
        then refund_slot p w a.task a.claim a.task_vault a.poster_ata task
            (set_claim_status cancelled (record claim { rejections = n }))
        else ok (
            store a.claim
              (claim_account (set_claim_status rejected (record claim { rejections = n })))
              w))
      ≡ ok w'
    → RejectionCounted p w w' a task claim
rejection_counted p w w' a task claim n e h = elim (Bool-cases (leb max_rejections n)) [
  | inl last ↦ cancelled_for_good (ground arith) (
      rw (← e) (
        refund_slot-RefundedTo p w w' a.task a.claim a.task_vault a.poster_ata task
          (set_claim_status cancelled (record claim { rejections = n })) (rw last at h)))
  | inr more ↦ sent_back (ground arith) (rw (← e) (ok-injective (sym (rw more at h))))
]

pub reject_claim-ClaimRejected :
    (p : Platform) (env : Env) (w w' : World) (a : RejectClaim)
    → reject_claim p env w a ≡ ok w'
    → ClaimRejected p env w w' a
unfolding reject_claim
reject_claim-ClaimRejected p env w w' a h =
    let ((config, task, claim), checked, rest) = >>=-eq-ok (reject_accounts p env w a) _ h in
    let (op, rest1) = require-ok (is_open (task_status task)) invalid_state_transition _ rest in
    let (st, rest2) = require_status claim submitted invalid_state_transition _ rest1 in
    let (n, counted, rest3) = >>=-eq-ok (checked_inc 8 claim.rejections) _ rest2 in
    let f = rejection_checks p env w a checked in
    record {
      config = config;
      task = task;
      claim = claim;
      config_is = f.config_is;
      task_is = f.task_is;
      claim_is = f.claim_is;
      belongs = f.belongs;
      vault_is = f.vault_is;
      poster_ata_is = f.poster_ata_is;
      by_poster = f.by_poster;
      open_status = open_byte task op;
      before = claim_byte claim submitted st;
      counted =
          rejection_counted p w w' a task claim n (checked_inc_sound 8 claim.rejections counted)
            rest3;
    }
