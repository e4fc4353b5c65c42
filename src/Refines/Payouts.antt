-- ===== src/Refines/Payouts.antt =====
-- The promises of payouts, rulings and rejections (claim.rs, dispute.rs) as transitions of the
-- contract.
use clustly_solana_escrow.Base.{◌+◌, inr, refl, sym, ap, ◌∙◌}
use clustly_solana_escrow.State.{
  set_claim_status, submitted, approved, rejected, disputed, resolved_deliverer, resolved_poster,
  cancelled,
}
use clustly_solana_escrow.State.Status.{claim_status-set}
use clustly_solana_escrow.Platform.{Platform}
use clustly_solana_escrow.World.{World, Env}
use clustly_solana_escrow.Claim.Approve.{ApproveClaim, AutoApprove}
use clustly_solana_escrow.Claim.Reject.{RejectClaim}
use clustly_solana_escrow.Dispute.{
  DisputeFavor, deliverer, poster, ResolveDispute, AutoResolveDispute,
}
use clustly_solana_escrow.Contract.Reasons.{
  rejection, PayReason, approval, silent_poster, silent_admin, RefundReason, third_rejection,
}
use clustly_solana_escrow.Contract.Claims.{Paid}
use clustly_solana_escrow.Contract.{Transition, claim_moved, paid, refunded}
use clustly_solana_escrow.Promise.Claims.{
  ClaimApproved, ClaimAutoApproved, DisputeExpired, DisputeResolved, sent_back, cancelled_for_good,
  ClaimRejected,
}
use clustly_solana_escrow.Refines.Bytes.{open_of_byte, status_of_byte}

pub ClaimApproved-Paid :
    {p : Platform} {env : Env} {w w' : World} {a : ApproveClaim}
    → ClaimApproved p env w w' a
    → Paid p env w w'
ClaimApproved-Paid {a = a} m = record {
  keys = a.keys;
  config = m.config;
  task = m.task;
  claim = m.claim;
  final = approved;
  facts = m.accounts;
  mint_pinned = m.pinned;
  reason =
      approval (rw m.by_poster.0 m.by_poster.1) (open_of_byte m.task m.open_status)
        (status_of_byte m.claim submitted m.before);
  settled = m.paid;
}

pub ClaimAutoApproved-Paid :
    {p : Platform} {env : Env} {w w' : World} {a : AutoApprove}
    → ClaimAutoApproved p env w w' a
    → Paid p env w w'
ClaimAutoApproved-Paid {a = a} m = record {
  keys = a.keys;
  config = m.config;
  task = m.task;
  claim = m.claim;
  final = approved;
  facts = m.accounts;
  mint_pinned = m.pinned;
  reason =
      silent_poster m.late (open_of_byte m.task m.open_status)
        (status_of_byte m.claim submitted m.before);
  settled = m.paid;
}

pub DisputeExpired-Paid :
    {p : Platform} {env : Env} {w w' : World} {a : AutoResolveDispute}
    → DisputeExpired p env w w' a
    → Paid p env w w'
DisputeExpired-Paid {a = a} m = record {
  keys = a.keys;
  config = m.config;
  task = m.task;
  claim = m.claim;
  final = resolved_deliverer;
  facts = m.accounts;
  mint_pinned = m.pinned;
  reason = silent_admin m.late (status_of_byte m.claim disputed m.before);
  settled = m.paid;
}

pub DisputeResolved-Transition :
    (favor : DisputeFavor) {p : Platform} {env : Env} {w w' : World} {a : ResolveDispute}
    → DisputeResolved p env w w' a favor
    → Transition p env w w'
DisputeResolved-Transition deliverer {a = a} m = paid (record {
  keys = a.keys;
  config = m.config;
  task = m.task;
  claim = m.claim;
  final = resolved_deliverer;
  facts = m.accounts;
  mint_pinned = m.pinned;
  reason =
      PayReason.ruling (rw m.by_admin.0 m.by_admin.1) (status_of_byte m.claim disputed m.before);
  settled = m.ruled;
})
DisputeResolved-Transition poster {p} {a = a} m = refunded (record {
  config_key = a.config;
  task_key = a.task;
  claim_key = a.claim;
  vault = a.task_vault;
  poster_ata = a.poster_ata;
  config = m.config;
  task = m.task;
  claim = m.claim;
  claim' = set_claim_status resolved_poster m.claim;
  ledger = m.ruled.ledger;
  config_at = m.accounts.config_is.0;
  task_at = m.accounts.task_is.0;
  claim_at = m.accounts.claim_is.0;
  belongs = m.accounts.belongs;
  vault_owned = m.accounts.vault_is.0;
  vault_at = ap (p.associated_token a.task) (sym m.pinned) ∙ m.accounts.vault_is.1;
  poster_owned = m.poster_ata_is.1;
  reason =
      RefundReason.ruling (rw m.by_admin.0 m.by_admin.1) (status_of_byte m.claim disputed m.before);
  transferred = m.ruled.to_poster;
  written = m.ruled.written;
})

pub ClaimRejected-Transition :
    {p : Platform} {env : Env} {w w' : World} {a : RejectClaim}
    → ClaimRejected p env w w' a
    → Transition p env w w'
ClaimRejected-Transition {a = a} m = elim m.counted [
  | sent_back below written ↦ claim_moved (record {
    claim_key = a.claim;
    task = m.task;
    claim = m.claim;
    claim' = set_claim_status rejected (record m.claim { rejections = m.claim.rejections + 1 });
    before = submitted;
    after = rejected;
    task_at = rw m.belongs m.task_is.0;
    claim_at = m.claim_is.0;
    read = status_of_byte m.claim submitted m.before;
    move = rejection;
    becomes = claim_status-set rejected (record m.claim { rejections = m.claim.rejections + 1 });
    same_task = refl;
    same_claimer = refl;
    rejections_kept = inr (refl, below);
    signed = rw m.by_poster.0 m.by_poster.1;
    written = written;
  })
  | cancelled_for_good last r ↦ refunded (record {
    config_key = a.config;
    task_key = a.task;
    claim_key = a.claim;
    vault = a.task_vault;
    poster_ata = a.poster_ata;
    config = m.config;
    task = m.task;
    claim = m.claim;
    claim' = set_claim_status cancelled (record m.claim { rejections = m.claim.rejections + 1 });
    ledger = r.ledger;
    config_at = m.config_is.0;
    task_at = m.task_is.0;
    claim_at = m.claim_is.0;
    belongs = m.belongs;
    vault_owned = m.vault_is.0;
    vault_at = m.vault_is.1;
    poster_owned = m.poster_ata_is.1;
    reason =
        third_rejection (rw m.by_poster.0 m.by_poster.1) (open_of_byte m.task m.open_status)
          (status_of_byte m.claim submitted m.before) last;
    transferred = r.to_poster;
    written = r.written;
  })
]
