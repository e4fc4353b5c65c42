-- ===== src/Promise/Claims.antt =====
-- What the instructions on claims promise (claim.rs, dispute.rs). A claim's status byte is 0 when it
-- is enrolled, then 1 submitted, 2 approved, 3 rejected, 4 cancelled, 5 disputed, and 6 or 7 after
-- a ruling for the deliverer or for the poster; a task's is 0 while it is open.
use clustly_solana_escrow.Base.{◌+◌, ◌≤◌, ◌<◌, ◌≡◌, ◌≢◌, ◌⊎◌, true, none}
use clustly_solana_escrow.Base.Int.{ℤ, pos}
use clustly_solana_escrow.Base.Dict.{lookup}
use clustly_solana_escrow.State.{Pubkey, Bytes, zeros, EscrowConfig, EscrowTask, EscrowClaim}
use clustly_solana_escrow.Platform.{Ledger, Platform}
use clustly_solana_escrow.World.{World, Env, task_account, claim_account, claim_seeds, store}
use clustly_solana_escrow.Claim.Enroll.{Enroll}
use clustly_solana_escrow.Claim.Submit.{Submit}
use clustly_solana_escrow.Claim.Approve.{ApproveClaim, AutoApprove}
use clustly_solana_escrow.Claim.Reject.{RejectClaim}
use clustly_solana_escrow.Dispute.{
  OpenDispute, DisputeFavor, deliverer, poster, ResolveDispute, AutoResolveDispute,
}
use clustly_solana_escrow.Contract.Reasons.{HasSigned, Elapsed}
use clustly_solana_escrow.Promise.Terms.{
  ConfigIs, TaskIs, ClaimIs, AssociatedIs, TokenIs, AccountReady, PayoutAccounts, PaidOut,
  RefundedTo,
}

-- The claim that is asked for: enrolled at the time, with the bump of its address.
abbrev pub claim_asked : Platform → Enroll → Bytes → ℤ → EscrowClaim
claim_asked p a claim_id now = record {
  claim_id = claim_id;
  task = a.task;
  claimer = a.claimer;
  status = 0;
  enrolled_at = now;
  submitted_at = pos 0;
  disputed_at = pos 0;
  rejections = 0;
  deliverable_hash = zeros 32;
  bump = (p.find_program_address (claim_seeds claim_id)).1;
  reserved = zeros 16;
}

-- A claimer who is not the poster takes a free slot of an open task: a new claim appears, enrolled
-- at this time, and the task counts one more enrolment.
pub record ClaimEnrolled (p : Platform) (env : Env) (w w' : World) (a : Enroll) (claim_id : Bytes)
    : Type 0 where
  pub config : EscrowConfig
  pub task : EscrowTask
  pub ledger : Ledger
  pub signed : HasSigned env a.claimer
  pub config_is : ConfigIs p w a.config config
  pub mint_is : w.is_mint a.usdc_mint ≡ true
  pub task_is : TaskIs p w a.task task
  pub address : (p.find_program_address (claim_seeds claim_id)).0 ≡ a.claim
  pub unused : lookup a.claim w.accounts ≡ none
  pub open_status : task.status ≡ 0
  pub room : task.slots_enrolled < task.max_slots
  pub not_poster : a.claimer ≢ task.poster
  pub claimer_ata_at : p.associated_token a.claimer a.usdc_mint ≡ a.claimer_ata
  pub claimer_ata_ready : AccountReady p w.ledger a.claimer_ata a.usdc_mint a.claimer ledger
  pub written :
      w'
      ≡ store a.claim (claim_account (claim_asked p a claim_id env.now)) (
          store a.task
            (task_account (record task { slots_enrolled = task.slots_enrolled + 1 }))
            (record w { ledger = ledger }))

-- The claimer himself acts on his claim of the task.
pub record ByClaimer (p : Platform) (env : Env) (w : World) (task_key claim_key claimer : Pubkey)
    (claim : EscrowClaim) : Type 0 where
  pub task : EscrowTask
  pub task_is : TaskIs p w task_key task
  pub claim_is : ClaimIs p w claim_key claim
  pub belongs : claim.task ≡ task_key
  pub claimer_is : claim.claimer ≡ claimer
  pub signed : HasSigned env claimer

-- An enrolled or rejected claim takes the hash, the time and the status of a submission, and nothing
-- else changes.
pub record ClaimSubmitted (p : Platform) (env : Env) (w w' : World) (a : Submit)
    (deliverable_hash : Bytes) : Type 0 where
  pub claim : EscrowClaim
  pub by_claimer : ByClaimer p env w a.task a.claim a.claimer claim
  pub before : (claim.status ≡ 0) ⊎ (claim.status ≡ 3)
  pub written :
      w'
      ≡ store a.claim
          (claim_account (record claim {
            status = 1;
            submitted_at = env.now;
            deliverable_hash = deliverable_hash;
          }))
          w

-- A rejected claim is disputed, at this time, and nothing else changes.
pub record ClaimDisputed (p : Platform) (env : Env) (w w' : World) (a : OpenDispute) : Type 0 where
  pub claim : EscrowClaim
  pub by_claimer : ByClaimer p env w a.task a.claim a.claimer claim
  pub before : claim.status ≡ 3
  pub written :
      w' ≡ store a.claim (claim_account (record claim { status = 5; disputed_at = env.now })) w

-- The poster has a submitted claim of his open task paid.
pub record ClaimApproved (p : Platform) (env : Env) (w w' : World) (a : ApproveClaim) : Type 0 where
  pub config : EscrowConfig
  pub task : EscrowTask
  pub claim : EscrowClaim
  pub accounts : PayoutAccounts p w a.keys config task claim
  pub pinned : a.usdc_mint ≡ config.usdc_mint
  pub by_poster : (task.poster ≡ a.poster) × HasSigned env a.poster
  pub open_status : task.status ≡ 0
  pub before : claim.status ≡ 1
  pub paid : PaidOut p w w' a.keys 2 config task claim

-- Anybody has a claim of an open task paid that was submitted fourteen days ago.
pub record ClaimAutoApproved (p : Platform) (env : Env) (w w' : World) (a : AutoApprove)
    : Type 0 where
  pub config : EscrowConfig
  pub task : EscrowTask
  pub claim : EscrowClaim
  pub accounts : PayoutAccounts p w a.keys config task claim
  pub pinned : a.usdc_mint ≡ config.usdc_mint
  pub signed : HasSigned env a.caller
  pub open_status : task.status ≡ 0
  pub before : claim.status ≡ 1
  pub late : Elapsed claim.submitted_at env.now
  pub paid : PaidOut p w w' a.keys 2 config task claim

-- Anybody has a claim paid that was disputed fourteen days ago.
pub record DisputeExpired (p : Platform) (env : Env) (w w' : World) (a : AutoResolveDispute)
    : Type 0 where
  pub config : EscrowConfig
  pub task : EscrowTask
  pub claim : EscrowClaim
  pub accounts : PayoutAccounts p w a.keys config task claim
  pub pinned : a.usdc_mint ≡ config.usdc_mint
  pub signed : HasSigned env a.caller
  pub before : claim.status ≡ 5
  pub late : Elapsed claim.disputed_at env.now
  pub paid : PaidOut p w w' a.keys 6 config task claim

-- The side that the admin has ruled for gets the bounty.
abbrev pub RuledFor :
    DisputeFavor
    → Platform
    → World
    → World
    → ResolveDispute
    → EscrowConfig
    → EscrowTask
    → EscrowClaim
    → Type 0
RuledFor deliverer p w w' a config task claim = PaidOut p w w' a.keys 6 config task claim
RuledFor poster p w w' a config task claim =
    RefundedTo p w w' a.task a.claim a.task_vault a.poster_ata task (record claim { status = 7 })

-- The admin rules on a disputed claim.
pub record DisputeResolved (p : Platform) (env : Env) (w w' : World) (a : ResolveDispute)
    (favor : DisputeFavor) : Type 0 where
  pub config : EscrowConfig
  pub task : EscrowTask
  pub claim : EscrowClaim
  pub accounts : PayoutAccounts p w a.keys config task claim
  pub pinned : a.usdc_mint ≡ config.usdc_mint
  pub poster_ata_is : TokenIs w.ledger a.poster_ata a.usdc_mint task.poster
  pub by_admin : (config.admin ≡ a.admin) × HasSigned env a.admin
  pub before : claim.status ≡ 5
  pub ruled : RuledFor favor p w w' a config task claim

-- The third rejection cancels the claim and refunds its slot; an earlier one only sends it back.
pub data RejectionCounted (p : Platform) (w w' : World) (a : RejectClaim) (task : EscrowTask)
    (claim : EscrowClaim) : Type 0 where
  sent_back :
      claim.rejections + 1 < 3
      → w'
        ≡ store a.claim
            (claim_account (record claim { rejections = claim.rejections + 1; status = 3 }))
            w
      → RejectionCounted p w w' a task claim
  cancelled_for_good :
      3 ≤ claim.rejections + 1
      → RefundedTo p w w' a.task a.claim a.task_vault a.poster_ata task
          (record claim { rejections = claim.rejections + 1; status = 4 })
      → RejectionCounted p w w' a task claim

-- The poster rejects a submitted claim of his open task.
pub record ClaimRejected (p : Platform) (env : Env) (w w' : World) (a : RejectClaim) : Type 0 where
  pub config : EscrowConfig
  pub task : EscrowTask
  pub claim : EscrowClaim
  pub config_is : ConfigIs p w a.config config
  pub task_is : TaskIs p w a.task task
  pub claim_is : ClaimIs p w a.claim claim
  pub belongs : claim.task ≡ a.task
  pub vault_is : AssociatedIs p w.ledger a.task_vault config.usdc_mint a.task
  pub poster_ata_is : TokenIs w.ledger a.poster_ata config.usdc_mint task.poster
  pub by_poster : (task.poster ≡ a.poster) × HasSigned env a.poster
  pub open_status : task.status ≡ 0
  pub before : claim.status ≡ 1
  pub counted : RejectionCounted p w w' a task claim
