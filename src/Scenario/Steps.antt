-- ===== src/Scenario/Steps.antt =====
-- The sample run as steps of the system.
use clustly_solana_escrow.Base.{ℕ, ◌≡◌, ◌≢◌, ◌<◌, refl, arith, [], ◌∷◌, none, some}
use clustly_solana_escrow.Base.Dict.{lookup, insert, lookup-insert, Dict}
use clustly_solana_escrow.State.{
  checked_inc, status_eq, Pubkey, EscrowConfig, EscrowTask, EscrowClaim, zeros, claim_status,
  task_status, compute_fee_split, from_u8,
}
use clustly_solana_escrow.Platform.Sample.{sample, sample_underived}
use clustly_solana_escrow.World.{
  load_config, load_task, load_claim, load_token, World, Account, config_account, task_account,
  claim_account,
}
use clustly_solana_escrow.Task.Initialize.{initialize_task, initialize_task_accounts, total_bounty}
use clustly_solana_escrow.Task.Close.{close_accounts, close_task}
use clustly_solana_escrow.Claim.Enroll.{enroll, enroll_accounts, init_if_needed}
use clustly_solana_escrow.Claim.Approve.{approve_accounts, approve_claim}
use clustly_solana_escrow.Dispute.{open_dispute, open_dispute_accounts}
use clustly_solana_escrow.Claim.Submit.{submit, submit_accounts}
use clustly_solana_escrow.Claim.Reject.{reject_claim, reject_accounts}
use clustly_solana_escrow.Payout.{pay_deliverer, pay_split, refund_slot}
use clustly_solana_escrow.Closing.{drain_vault, past_deadline}
use clustly_solana_escrow.Config.{initialize_config_accounts, initialize_config}
use clustly_solana_escrow.Program
use clustly_solana_escrow.Program.{Instruction, process}
use clustly_solana_escrow.Contract.Reasons.{ConfigAt}
use clustly_solana_escrow.System.{WalletsSign, Step, executes, Reach, SameMint}
use clustly_solana_escrow.Scenario.{
  by, genesis, configuring, funding, terms, enrolling, submitting, payout_keys, rejecting, closing,
  claim_id, configured_world, funded_world, enrolled_world, submitted_world, approved_world,
  rejected_world, disputed_world, closed_world,
}

-- The wallets are the keys from 1 to 6.
pub signs :
    (who time : ℕ) (w : World)
    → 0 < who
    → who < 7
    → lookup who w.accounts ≡ none
    → WalletsSign sample (by who time) w
signs who time w least small gone k h =
    let same : k ≡ who = ground arith in
    rw same (record { no_account = gone; underived = sample_underived who least small })

pub configured_step : Step sample genesis configured_world
unfolding process sample lookup insert zeros load_config load_task load_claim load_token
    initialize_config initialize_config_accounts
configured_step =
    executes (by 4 10) (Program.initialize_config configuring 1 400)
      (signs 4 10 genesis (omega arith) (omega arith) refl) refl

pub funded_step : Step sample configured_world funded_world
unfolding process sample lookup insert zeros load_config load_task load_claim load_token
    initialize_config initialize_config_accounts initialize_task initialize_task_accounts
    total_bounty
funded_step =
    executes (by 2 20) (Program.initialize_task funding terms)
      (signs 2 20 configured_world (omega arith) (omega arith) refl) refl

pub enrolled_step : Step sample funded_world enrolled_world
unfolding process sample lookup insert zeros load_config load_task load_claim load_token
    initialize_config initialize_config_accounts initialize_task initialize_task_accounts
    total_bounty enroll enroll_accounts init_if_needed task_status checked_inc
enrolled_step =
    executes (by 3 30) (Program.enroll enrolling claim_id)
      (signs 3 30 funded_world (omega arith) (omega arith) refl) refl

pub submitted_step : Step sample enrolled_world submitted_world
unfolding process sample lookup insert zeros load_config load_task load_claim load_token
    initialize_config initialize_config_accounts initialize_task initialize_task_accounts
    total_bounty enroll enroll_accounts init_if_needed task_status checked_inc submit
    submit_accounts from_u8 claim_status status_eq
submitted_step =
    executes (by 3 1_000) (Program.submit submitting (7 ∷ []))
      (signs 3 1_000 enrolled_world (omega arith) (omega arith) refl) refl

pub approved_step : Step sample submitted_world approved_world
unfolding process sample lookup insert zeros load_config load_task load_claim load_token
    initialize_config initialize_config_accounts initialize_task initialize_task_accounts
    total_bounty enroll enroll_accounts init_if_needed task_status checked_inc submit
    submit_accounts from_u8 claim_status status_eq approve_claim approve_accounts pay_deliverer
    pay_split compute_fee_split
approved_step =
    executes (by 2 2_000) (Program.approve_claim (record { poster = 2; keys = payout_keys }))
      (signs 2 2_000 submitted_world (omega arith) (omega arith) refl) refl

pub closed_step : Step sample approved_world closed_world
unfolding process sample lookup insert zeros load_config load_task load_claim load_token
    initialize_config initialize_config_accounts initialize_task initialize_task_accounts
    total_bounty enroll enroll_accounts init_if_needed task_status checked_inc submit
    submit_accounts from_u8 claim_status status_eq approve_claim approve_accounts pay_deliverer
    pay_split compute_fee_split close_task close_accounts drain_vault past_deadline
closed_step =
    executes (by 4 3_000) (Program.close_task closing)
      (signs 4 3_000 approved_world (omega arith) (omega arith) refl) refl

pub rejected_step : Step sample submitted_world rejected_world
unfolding process sample lookup insert zeros load_config load_task load_claim load_token
    initialize_config initialize_config_accounts initialize_task initialize_task_accounts
    total_bounty enroll enroll_accounts init_if_needed task_status checked_inc submit
    submit_accounts from_u8 claim_status status_eq reject_claim reject_accounts refund_slot
rejected_step =
    executes (by 2 3_000) (Program.reject_claim rejecting)
      (signs 2 3_000 submitted_world (omega arith) (omega arith) refl) refl

pub disputed_step : Step sample rejected_world disputed_world
unfolding process sample lookup insert zeros load_config load_task load_claim load_token
    initialize_config initialize_config_accounts initialize_task initialize_task_accounts
    total_bounty enroll enroll_accounts init_if_needed task_status checked_inc submit
    submit_accounts from_u8 claim_status status_eq reject_claim reject_accounts refund_slot
    open_dispute open_dispute_accounts
disputed_step =
    executes (by 3 4_000)
      (Program.open_dispute
        (record { claimer = 3; task = 301_327_051_898; claim = 301_327_061_661 }))
      (signs 3 4_000 rejected_world (omega arith) (omega arith) refl) refl

pub submitted-Reach : Reach sample genesis submitted_world
submitted-Reach =
    Reach.later
      (Reach.later (Reach.later (Reach.later Reach.start configured_step) funded_step)
        enrolled_step)
      submitted_step

pub disputed-Reach : Reach sample genesis disputed_world
disputed-Reach = Reach.later (Reach.later submitted-Reach rejected_step) disputed_step

-- Whatever else a write does: if it leaves no new configuration, the mint stays.
pub keeps_mint :
    (w w' : World)
    → ((k : Pubkey) (c : EscrowConfig) → ConfigAt w' k c → ConfigAt w k c)
    → SameMint w w'
keeps_mint w w' keeps k c c' h g = let g' = keeps k c' g in ground arith

no_config_written :
    (j k : Pubkey) (a : Account) (d : Dict Account) (c : EscrowConfig)
    → ((x : EscrowConfig) → a ≢ config_account x)
    → lookup k (insert j a d) ≡ some (config_account c)
    → lookup k d ≡ some (config_account c)
no_config_written j k a d c other h = ground (arith, lookup-insert j k a d, other c)

pub task_write-SameMint :
    (w w' : World) (j : Pubkey) (t : EscrowTask)
    → w'.accounts ≡ insert j (task_account t) w.accounts
    → SameMint w w'
task_write-SameMint w w' j t e =
    keeps_mint w w'
      (λ k c h. no_config_written j k (task_account t) w.accounts c (λ x q. cc) (rw (← e) h))

pub claim_write-SameMint :
    (w w' : World) (i j : Pubkey) (t : EscrowTask) (d : EscrowClaim)
    → w'.accounts ≡ insert i (claim_account d) (insert j (task_account t) w.accounts)
    → SameMint w w'
claim_write-SameMint w w' i j t d e = keeps_mint w w' (λ k c h.
    no_config_written j k (task_account t) w.accounts c (λ x q. cc)
      (no_config_written i k (claim_account d) (insert j (task_account t) w.accounts) c (λ x q. cc)
        (rw (← e) h)))

pub config_write-SameMint :
    (w w' : World) (j : Pubkey) (c d : EscrowConfig)
    → w'.accounts ≡ insert j (config_account d) w.accounts
    → ConfigAt w j c
    → d.usdc_mint ≡ c.usdc_mint
    → SameMint w w'
config_write-SameMint w w' j c d e at same k x y h g =
    let g' : lookup k (insert j (config_account d) w.accounts) ≡ some (config_account y) =
      rw (← e) g in
    ground (arith, lookup-insert j k (config_account d) w.accounts)
