-- ===== src/Refines/Moves.antt =====
-- The promises of enrolments, submissions and disputes (claim.rs, dispute.rs) as transitions of the
-- contract.
use clustly_solana_escrow.Base.{◌≡◌, inl, inr, refl}
use clustly_solana_escrow.Error.{ok}
use clustly_solana_escrow.State.{
  Pubkey, Bytes, EscrowClaim, claim_status, claim_status_to_u8, ClaimStatus, enrolled, submitted,
  disputed, set_claim_status,
}
use clustly_solana_escrow.State.Status.{claim_status-set}
use clustly_solana_escrow.Platform.{Platform}
use clustly_solana_escrow.World.{World, Env, claim_account, store}
use clustly_solana_escrow.Claim.Enroll.{Enroll}
use clustly_solana_escrow.Claim.Submit.{Submit}
use clustly_solana_escrow.Dispute.{OpenDispute}
use clustly_solana_escrow.Contract.Reasons.{Move, first_submission, resubmission, dispute, mover}
use clustly_solana_escrow.Contract.Claims.{ClaimMoved, SlotTaken}
use clustly_solana_escrow.Promise.Claims.{
  claim_asked, ClaimEnrolled, ByClaimer, ClaimSubmitted, ClaimDisputed,
}
use clustly_solana_escrow.Refines.Bytes.{open_of_byte, status_of_byte}

-- A move by the claimer that leaves the counter of rejections.
claimer_moves :
    {p : Platform} {env : Env} {w w' : World} {task_key claim_key claimer : Pubkey}
    {claim : EscrowClaim} (claim' : EscrowClaim) {before after : ClaimStatus}
    (m : ByClaimer p env w task_key claim_key claimer claim)
    → claim.status ≡ claim_status_to_u8 before
    → (move : Move before after) → mover move m.task claim ≡ claim.claimer
    → claim_status claim' ≡ ok after
    → claim'.task ≡ claim.task
    → claim'.claimer ≡ claim.claimer
    → claim'.rejections ≡ claim.rejections
    → w' ≡ store claim_key (claim_account claim') w
    → ClaimMoved env w w'
claimer_moves {claim_key = claim_key} {claim = claim} claim' {before} {after} m byte move turn
      becomes t c r h =
    record {
      claim_key = claim_key;
      task = m.task;
      claim = claim;
      claim' = claim';
      before = before;
      after = after;
      task_at = rw m.belongs m.task_is.0;
      claim_at = m.claim_is.0;
      read = status_of_byte claim before byte;
      move = move;
      becomes = becomes;
      same_task = t;
      same_claimer = c;
      rejections_kept = inl r;
      signed = rw (turn, m.claimer_is) m.signed;
      written = h;
    }

pub ClaimSubmitted-ClaimMoved :
    {p : Platform} {env : Env} {w w' : World} {a : Submit} {hash : Bytes}
    → ClaimSubmitted p env w w' a hash
    → ClaimMoved env w w'
ClaimSubmitted-ClaimMoved {env = env} {hash = hash} m =
    let sent : EscrowClaim = record m.claim { submitted_at = env.now; deliverable_hash = hash } in
    elim m.before [
      | inl new ↦
          claimer_moves (set_claim_status submitted sent) m.by_claimer new first_submission refl
            (claim_status-set submitted sent) refl refl refl m.written
      | inr again ↦
          claimer_moves (set_claim_status submitted sent) m.by_claimer again resubmission refl
            (claim_status-set submitted sent) refl refl refl m.written
    ]

pub ClaimDisputed-ClaimMoved :
    {p : Platform} {env : Env} {w w' : World} {a : OpenDispute}
    → ClaimDisputed p env w w' a
    → ClaimMoved env w w'
ClaimDisputed-ClaimMoved {env = env} m =
    let called : EscrowClaim = record m.claim { disputed_at = env.now } in
    claimer_moves (set_claim_status disputed called) m.by_claimer m.before dispute refl
      (claim_status-set disputed called) refl refl refl m.written

pub ClaimEnrolled-SlotTaken :
    {p : Platform} {env : Env} {w w' : World} {a : Enroll} {claim_id : Bytes}
    → ClaimEnrolled p env w w' a claim_id
    → SlotTaken p env w w'
ClaimEnrolled-SlotTaken {p} {env} {a = a} {claim_id} m = record {
  task_key = a.task;
  claim_key = a.claim;
  ata = a.claimer_ata;
  mint = a.usdc_mint;
  task = m.task;
  claim = claim_asked p a claim_id env.now;
  ledger = m.ledger;
  task_at = m.task_is.0;
  unused = m.unused;
  is_open_task = open_of_byte m.task m.open_status;
  room = m.room;
  signed = m.signed;
  not_poster = m.not_poster;
  status = claim_status-set enrolled (claim_asked p a claim_id env.now);
  no_rejections = refl;
  belongs = refl;
  account_ready = m.claimer_ata_ready;
  written = m.written;
}
