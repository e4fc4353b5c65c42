-- ===== src/Claim/Enroll.antt =====
-- claim.rs, `Enroll`: a claimer takes a slot of a task.
use clustly_solana_escrow.Base.{ℕ, not, Option, none, some, ltb, ◌==◌}
use clustly_solana_escrow.Base.Int.{ℤ, pos}
use clustly_solana_escrow.Error.{
  self_enrollment, slots_full, invalid_state_transition, constraint_token_owner,
  constraint_token_mint, constraint_associated, Result, ok, ◌>>=◌, ◌>>◌, require, constraint,
}
use clustly_solana_escrow.State.{
  Pubkey, Bytes, zeros, EscrowTask, EscrowClaim, task_status, is_open, set_claim_status, enrolled,
  checked_inc,
}
use clustly_solana_escrow.Platform.{TokenAccount, Ledger, Platform}
use clustly_solana_escrow.World.{
  World, Env, task_account, claim_account, load_config, load_task, load_mint, signer, has_seeds,
  config_seeds, task_seeds, claim_seeds, init_pda, store,
}

pub record Enroll : Type 0 where
  pub claimer : Pubkey
  pub config : Pubkey
  pub usdc_mint : Pubkey
  pub task : Pubkey
  pub claim : Pubkey
  pub claimer_ata : Pubkey

-- `init_if_needed` of `claimer_ata`.
open_if_needed : Option TokenAccount → Platform → Ledger → Pubkey → Pubkey → Pubkey → Result Ledger
open_if_needed none p l k mint authority = p.create_associated l authority mint
open_if_needed (some v) p l k mint authority = do
  constraint (v.mint == mint) constraint_token_mint
  constraint (v.owner == authority) constraint_token_owner
  ok l

unfoldable pub init_if_needed : Platform → Ledger → Pubkey → Pubkey → Pubkey → Result Ledger
unfolding open_if_needed
init_if_needed p l k mint authority = do
  constraint (p.associated_token authority mint == k) constraint_associated
  open_if_needed (l k) p l k mint authority

-- The checks: the task, the bump of the new claim, and the ledger with the claimer's account.
unfoldable pub enroll_accounts :
    Platform → Env → World → Enroll → Bytes → Result (EscrowTask × ℕ × Ledger)
enroll_accounts p env w a claim_id = do
  signer env a.claimer
  config ← load_config w a.config
  load_mint w a.usdc_mint
  task ← load_task w a.task
  bump ← init_pda p w a.claim (claim_seeds claim_id)
  ledger ← init_if_needed p w.ledger a.claimer_ata a.usdc_mint a.claimer
  has_seeds p a.config config_seeds config.bump
  has_seeds p a.task (task_seeds task.task_id) task.bump
  ok (task, bump, ledger)

abbrev pub new_claim : Enroll → Bytes → ℕ → ℤ → EscrowClaim
new_claim a claim_id bump now = set_claim_status enrolled (record {
  claim_id = claim_id;
  task = a.task;
  claimer = a.claimer;
  status = 0;
  enrolled_at = now;
  submitted_at = pos 0;
  disputed_at = pos 0;
  rejections = 0;
  deliverable_hash = zeros 32;
  bump = bump;
  reserved = zeros 16;
})

unfoldable pub enroll : Platform → Env → World → Enroll → Bytes → Result World
enroll p env w a claim_id = do
  (task, bump, ledger) ← enroll_accounts p env w a claim_id
  require (is_open (task_status task)) invalid_state_transition
  require (ltb task.slots_enrolled task.max_slots) slots_full
  require (not (a.claimer == task.poster)) self_enrollment
  slots ← checked_inc 16 task.slots_enrolled
  ok (
      store a.claim (claim_account (new_claim a claim_id bump env.now)) (
        store a.task (task_account (record task { slots_enrolled = slots }))
          (record w { ledger = ledger })))
