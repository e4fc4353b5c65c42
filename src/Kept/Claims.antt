-- ===== src/Kept/Claims.antt =====
-- Enrolments, submissions and disputes (claim.rs, dispute.rs) against their promises.
use clustly_solana_escrow.Base.{
  ℕ, ◌<◌, ◌≡◌, ◌≢◌, ◌⊎◌, refl, sym, true, not, ◌||◌, none, Option, some, ltb, ◌==◌, arith,
}
use clustly_solana_escrow.Base.Dict.{lookup}
use clustly_solana_escrow.Error.{
  self_enrollment, slots_full, invalid_state_transition, ok, >>=-eq-ok, require-ok, ok-injective,
}
use clustly_solana_escrow.State.{
  Pubkey, Bytes, EscrowConfig, EscrowTask, EscrowClaim, task_status, is_open, claim_status,
  status_eq, ClaimStatus, enrolled, rejected, checked_inc,
}
use clustly_solana_escrow.State.Status.{require_status}
use clustly_solana_escrow.Platform.{TokenAccount, Ledger, Platform}
use clustly_solana_escrow.World.{World, Env, load_config, load_task, load_claim, claim_seeds}
use clustly_solana_escrow.Claim.Enroll.{Enroll, init_if_needed, enroll_accounts, enroll}
use clustly_solana_escrow.Claim.Submit.{Submit, submit_accounts, submit}
use clustly_solana_escrow.Dispute.{OpenDispute, open_dispute_accounts, open_dispute}
use clustly_solana_escrow.Contract.Reasons.{HasSigned}
use clustly_solana_escrow.Promise.Terms.{ConfigIs, TaskIs, AccountReady, missing, present}
use clustly_solana_escrow.Promise.Claims.{ClaimEnrolled, ByClaimer, ClaimSubmitted, ClaimDisputed}
use clustly_solana_escrow.Kept.Steps.{checked_inc_sound, open_byte, claim_byte}

-- What the checks of an enrolment find.
record EnrolmentChecks (p : Platform) (env : Env) (w : World) (a : Enroll) (claim_id : Bytes)
    (task : EscrowTask) (bump : ℕ) (ledger : Ledger) : Type 0 where
  config : EscrowConfig
  signed : HasSigned env a.claimer
  config_is : ConfigIs p w a.config config
  mint_is : w.is_mint a.usdc_mint ≡ true
  task_is : TaskIs p w a.task task
  address : (p.find_program_address (claim_seeds claim_id)).0 ≡ a.claim
  canonical : bump ≡ (p.find_program_address (claim_seeds claim_id)).1
  unused : lookup a.claim w.accounts ≡ none
  opened : init_if_needed p w.ledger a.claimer_ata a.usdc_mint a.claimer ≡ ok ledger

enrolment_checks :
    (p : Platform) (env : Env) (w : World) (a : Enroll) (claim_id : Bytes) {task : EscrowTask}
    {bump : ℕ} {ledger : Ledger}
    → enroll_accounts p env w a claim_id ≡ ok (task, bump, ledger)
    → EnrolmentChecks p env w a claim_id task bump ledger
unfolding enroll_accounts load_config load_task
enrolment_checks p env w a claim_id h = ground arith steps 10000000

module _ (p : Platform) (l : Ledger) (k mint owner : Pubkey) (l' : Ledger) where
  init_if_needed-AccountReady :
      init_if_needed p l k mint owner ≡ ok l'
      → (p.associated_token owner mint ≡ k) × AccountReady p l k mint owner l'
  unfolding init_if_needed
  init_if_needed-AccountReady h = (ground arith, ready (l k) refl)
    where
      ready : (o : Option TokenAccount) → l k ≡ o → AccountReady p l k mint owner l'
      ready none e = missing e (ground arith)
      ready (some v) e = present (rw e (ground arith, ground arith)) (ground arith)

-- The tests of an enrolment.
room_left :
    (t : EscrowTask) (claimer : Pubkey)
    → ltb t.slots_enrolled t.max_slots ≡ true
    → not (claimer == t.poster) ≡ true
    → (t.slots_enrolled < t.max_slots) × (claimer ≢ t.poster)
room_left t claimer h g = (ground arith, λ e. ground arith)

pub enroll-ClaimEnrolled :
    (p : Platform) (env : Env) (w w' : World) (a : Enroll) (claim_id : Bytes)
    → enroll p env w a claim_id ≡ ok w'
    → ClaimEnrolled p env w w' a claim_id
unfolding enroll
enroll-ClaimEnrolled p env w w' a claim_id h =
    let ((task, bump, ledger), checked, rest) =
      >>=-eq-ok (enroll_accounts p env w a claim_id) _ h in
    let (op, rest1) = require-ok (is_open (task_status task)) invalid_state_transition _ rest in
    let (free, rest2) = require-ok (ltb task.slots_enrolled task.max_slots) slots_full _ rest1 in
    let (other, rest3) = require-ok (not (a.claimer == task.poster)) self_enrollment _ rest2 in
    let (slots, counted, done) = >>=-eq-ok (checked_inc 16 task.slots_enrolled) _ rest3 in
    let f = enrolment_checks p env w a claim_id checked in
    let (room, not_poster) = room_left task a.claimer free other in
    let (ata_at, ready) =
      init_if_needed-AccountReady p w.ledger a.claimer_ata a.usdc_mint a.claimer ledger f.opened in
    record {
      config = f.config;
      task = task;
      ledger = ledger;
      signed = f.signed;
      config_is = f.config_is;
      mint_is = f.mint_is;
      task_is = f.task_is;
      address = f.address;
      unused = f.unused;
      open_status = open_byte task op;
      room = room;
      not_poster = not_poster;
      claimer_ata_at = ata_at;
      claimer_ata_ready = ready;
      written =
          rw (← f.canonical, ← checked_inc_sound 16 task.slots_enrolled counted)
            (ok-injective (sym done));
    }

submit_checks :
    (p : Platform) (env : Env) (w : World) (a : Submit) {task : EscrowTask} {claim : EscrowClaim}
    → submit_accounts p env w a ≡ ok (task, claim)
    → ByClaimer p env w a.task a.claim a.claimer claim
unfolding submit_accounts load_task load_claim
submit_checks p env w a {task} h = record {
  task = task;
  task_is = ground arith;
  claim_is = ground arith;
  belongs = ground arith;
  claimer_is = ground arith;
  signed = ground arith;
}

open_dispute_checks :
    (p : Platform) (env : Env) (w : World) (a : OpenDispute) {task : EscrowTask}
    {claim : EscrowClaim}
    → open_dispute_accounts p env w a ≡ ok (task, claim)
    → ByClaimer p env w a.task a.claim a.claimer claim
unfolding open_dispute_accounts load_task load_claim
open_dispute_checks p env w a {task} h = record {
  task = task;
  task_is = ground arith;
  claim_is = ground arith;
  belongs = ground arith;
  claimer_is = ground arith;
  signed = ground arith;
}

submittable :
    (c : EscrowClaim) (s : ClaimStatus)
    → claim_status c ≡ ok s
    → (status_eq s enrolled || status_eq s rejected) ≡ true
    → (c.status ≡ 0) ⊎ (c.status ≡ 3)
unfolding status_eq
submittable c s read may = let byte = claim_byte c s read in ground arith

pub submit-ClaimSubmitted :
    (p : Platform) (env : Env) (w w' : World) (a : Submit) (deliverable_hash : Bytes)
    → submit p env w a deliverable_hash ≡ ok w'
    → ClaimSubmitted p env w w' a deliverable_hash
unfolding submit
submit-ClaimSubmitted p env w w' a deliverable_hash h =
    let ((task, claim), checked, rest) = >>=-eq-ok (submit_accounts p env w a) _ h in
    let (current, read, rest1) = >>=-eq-ok (claim_status claim) _ rest in
    let (may, done) =
      require-ok (status_eq current enrolled || status_eq current rejected) invalid_state_transition
        _ rest1 in
    record {
      claim = claim;
      by_claimer = submit_checks p env w a checked;
      before = submittable claim current read may;
      written = ok-injective (sym done);
    }

pub open_dispute-ClaimDisputed :
    (p : Platform) (env : Env) (w w' : World) (a : OpenDispute)
    → open_dispute p env w a ≡ ok w'
    → ClaimDisputed p env w w' a
unfolding open_dispute
open_dispute-ClaimDisputed p env w w' a h =
    let ((task, claim), checked, rest) = >>=-eq-ok (open_dispute_accounts p env w a) _ h in
    let (read, done) = require_status claim rejected invalid_state_transition _ rest in
    record {
      claim = claim;
      by_claimer = open_dispute_checks p env w a checked;
      before = claim_byte claim rejected read;
      written = ok-injective (sym done);
    }
