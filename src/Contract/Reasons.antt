-- ===== src/Contract/Reasons.antt =====
-- What the transitions have in common: the accounts that an instruction has checked, the moves of a claim and
-- the reasons for a payout or a refund.
use clustly_solana_escrow.Base.{◌+◌, ◌≤◌, ◌≡◌, true, Option, none, some}
use clustly_solana_escrow.Base.Int.{ℤ, pos, ◌+ℤ◌, ◌≤ℤ◌}
use clustly_solana_escrow.Base.Dict.{lookup}
use clustly_solana_escrow.Error.{ok}
use clustly_solana_escrow.State.{
  Pubkey, EscrowConfig, EscrowTask, EscrowClaim, task_status, claim_status, set_claim_status,
  open_task, ClaimStatus, enrolled, submitted, approved, rejected, cancelled, disputed,
  resolved_deliverer, resolved_poster, max_rejections,
}
use clustly_solana_escrow.Platform.{TokenAccount}
use clustly_solana_escrow.World.{World, Env, config_account, task_account, claim_account}

-- A token account that exists and has the owner.
abbrev pub IsOwned : Option TokenAccount → Pubkey → Type 0
IsOwned none owner = ⊥
IsOwned (some v) owner = v.owner ≡ owner

abbrev pub ConfigAt : World → Pubkey → EscrowConfig → Type 0
ConfigAt w k c = lookup k w.accounts ≡ some (config_account c)

abbrev pub TaskAt : World → Pubkey → EscrowTask → Type 0
TaskAt w k t = lookup k w.accounts ≡ some (task_account t)

abbrev pub ClaimAt : World → Pubkey → EscrowClaim → Type 0
ClaimAt w k c = lookup k w.accounts ≡ some (claim_account c)

abbrev pub HasSigned : Env → Pubkey → Type 0
HasSigned env k = env.is_signer k ≡ true

-- The moves of a claim that keep it alive.
pub data Move : ClaimStatus → ClaimStatus → Type 0 where
  first_submission : Move enrolled submitted
  resubmission : Move rejected submitted
  rejection : Move submitted rejected
  dispute : Move rejected disputed

-- Whose turn a move is: the poster rejects, the claimer does all else.
abbrev pub mover : {s s' : ClaimStatus} → Move s s' → EscrowTask → EscrowClaim → Pubkey
mover rejection t c = t.poster
mover _ t c = c.claimer

-- Fourteen days have passed since a time that was recorded.
abbrev pub Elapsed : ℤ → ℤ → Type 0
Elapsed since now = (pos 1 ≤ℤ since) × (since +ℤ pos 1_209_600 ≤ℤ now)

-- Why a deliverer is paid, with the status that the claim takes.
pub data PayReason (env : Env) (config : EscrowConfig) (task : EscrowTask) (claim : EscrowClaim)
    : ClaimStatus → Type 0 where
  approval :
      HasSigned env task.poster
      → task_status task ≡ open_task
      → claim_status claim ≡ ok submitted
      → PayReason env config task claim approved
  silent_poster :
      Elapsed claim.submitted_at env.now
      → task_status task ≡ open_task
      → claim_status claim ≡ ok submitted
      → PayReason env config task claim approved
  ruling :
      HasSigned env config.admin
      → claim_status claim ≡ ok disputed
      → PayReason env config task claim resolved_deliverer
  silent_admin :
      Elapsed claim.disputed_at env.now
      → claim_status claim ≡ ok disputed
      → PayReason env config task claim resolved_deliverer

-- Why a slot is refunded, with the claim that is written.
pub data RefundReason (env : Env) (config : EscrowConfig) (task : EscrowTask) (claim : EscrowClaim)
    : EscrowClaim → Type 0 where
  third_rejection :
      HasSigned env task.poster
      → task_status task ≡ open_task
      → claim_status claim ≡ ok submitted
      → max_rejections ≤ claim.rejections + 1
      → RefundReason env config task claim
          (set_claim_status cancelled (record claim { rejections = claim.rejections + 1 }))
  ruling :
      HasSigned env config.admin
      → claim_status claim ≡ ok disputed
      → RefundReason env config task claim (set_claim_status resolved_poster claim)
