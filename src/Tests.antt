-- ===== src/Tests.antt =====
-- The theorems at the states of the sample run: each one applied where its hypotheses hold.
use clustly_solana_escrow.Payments.Progress.{pay_deliverer_succeeds}
use clustly_solana_escrow.Base.{false, ◌≡◌, ◌≢◌, ◌≤◌, ◌+◌, ◌*◌, ◌↔◌, refl, arith, some}
use clustly_solana_escrow.Base.Int.{pos}
use clustly_solana_escrow.Base.Dict.{lookup, insert}
use clustly_solana_escrow.Error.{ok}
use clustly_solana_escrow.State.{
  is_terminal, checked_inc, status_eq, EscrowTask, zeros, approved, enrolled, disputed,
  set_claim_status, claim_status, open_task, task_status, compute_fee_split, from_u8,
  claim_status_to_u8,
}
use clustly_solana_escrow.State.Fee.{compute_fee_split_lem, compute_fee_split_cap}
use clustly_solana_escrow.State.Status.{from_u8_iff}
use clustly_solana_escrow.Platform.{Ledger, balance_of}
use clustly_solana_escrow.Platform.Sample.{sample, sample-Laws}
use clustly_solana_escrow.World.{
  store, claim_account, task_account, load_config, load_task, load_claim, load_token,
}
use clustly_solana_escrow.Task.Initialize.{
  initialize_task, initialize_task_accounts, total_bounty, new_task,
}
use clustly_solana_escrow.Task.Close.{active_slots, close_task}
use clustly_solana_escrow.Task.Cancel.{cancel_before_enroll, auto_cancel_task}
use clustly_solana_escrow.Claim.Enroll.{enroll, enroll_accounts, init_if_needed}
use clustly_solana_escrow.Claim.Approve.{
  approve_accounts, auto_approve_accounts, approve_claim, auto_approve,
}
use clustly_solana_escrow.Dispute.{
  open_dispute, open_dispute_accounts, auto_resolve_accounts, auto_resolve_dispute,
}
use clustly_solana_escrow.Claim.Submit.{submit, submit_accounts}
use clustly_solana_escrow.Claim.Reject.{reject_claim, reject_accounts}
use clustly_solana_escrow.Payout.{pay_deliverer, pay_split, refund_slot, elapsed}
use clustly_solana_escrow.Config.{
  update_fee, update_config_accounts, initialize_config_accounts, initialize_config,
}
use clustly_solana_escrow.Program
use clustly_solana_escrow.Program.{Instruction, process}
use clustly_solana_escrow.Contract.Reasons.{TaskAt, ClaimAt, Elapsed}
use clustly_solana_escrow.System.{executes, Reach, ReachPinned}
use clustly_solana_escrow.Promise.{Promise}
use clustly_solana_escrow.Kept.{process-Promise}
use clustly_solana_escrow.Slots.Defs.{IsSound}
use clustly_solana_escrow.Slots.{Reach-IsSound}
use clustly_solana_escrow.Custody.Defs.{Custody}
use clustly_solana_escrow.Custody.{Reach-Custody, initialize_config-Custody}
use clustly_solana_escrow.Lifecycle.{Reach-settled, Step-Evolved, SignedIn}
use clustly_solana_escrow.Lifecycle.Edges.{Evolved, is_claimers_turn}
use clustly_solana_escrow.Locks.{active_task_stays, Silent, Silent-keeps_claim}
use clustly_solana_escrow.Payments.{
  PaidAmounts, approve_claim_pays, auto_approve_pays, auto_resolve_dispute_pays,
}
use clustly_solana_escrow.Scenario.Steps.{
  signs, configured_step, funded_step, enrolled_step, submitted_step, approved_step, closed_step,
  submitted-Reach, disputed-Reach, task_write-SameMint, config_write-SameMint, claim_write-SameMint,
}
use clustly_solana_escrow.Scenario.{
  by, genesis, configuring, funding, terms, enrolling, payout_keys, closing, cancelling,
  auto_cancelling, configured_world, funded_world, enrolled_world, submitted_world, approved_world,
  auto_approved_world, disputed_world, auto_resolved_world, closed_world, enrolled_task,
  raised_world, the_config, enrolled_claim, submitted_claim, disputed_claim,
}

process-Promise_example :
    Promise sample
      (by 2 2_000)
      submitted_world
      approved_world
      (Program.approve_claim (record { poster = 2; keys = payout_keys }))
unfolding process sample lookup insert zeros load_config load_task load_claim load_token
    initialize_config initialize_config_accounts initialize_task initialize_task_accounts
    total_bounty enroll enroll_accounts init_if_needed task_status checked_inc submit
    submit_accounts from_u8 claim_status status_eq approve_claim approve_accounts pay_deliverer
    pay_split compute_fee_split
process-Promise_example =
    process-Promise sample (by 2 2_000) submitted_world approved_world
      (Program.approve_claim (record { poster = 2; keys = payout_keys })) refl

Reach-IsSound_example : IsSound approved_world
Reach-IsSound_example = Reach-IsSound refl (Reach.later submitted-Reach approved_step)

funded_reach : ReachPinned sample configured_world funded_world
unfolding process sample lookup insert zeros load_config load_task load_claim load_token
    initialize_config initialize_config_accounts initialize_task initialize_task_accounts
    total_bounty
funded_reach = ReachPinned.later ReachPinned.start funded_step (
    task_write-SameMint configured_world funded_world funding.task (new_task funding terms 255)
      refl)

enrolled_reach : ReachPinned sample configured_world enrolled_world
unfolding process sample lookup insert zeros load_config load_task load_claim load_token
    initialize_config initialize_config_accounts initialize_task initialize_task_accounts
    total_bounty enroll enroll_accounts init_if_needed task_status checked_inc
enrolled_reach = ReachPinned.later funded_reach enrolled_step (
    claim_write-SameMint funded_world enrolled_world enrolling.claim funding.task enrolled_task
      enrolled_claim refl)

initialize_config-Custody_example : Custody sample 5 configured_world
unfolding process sample lookup insert load_config initialize_config initialize_config_accounts
initialize_config-Custody_example =
    initialize_config-Custody sample (by 4 10) genesis configured_world configuring 1 400 refl refl

configured-Custody : Custody sample 5 configured_world
unfolding process sample lookup insert load_config initialize_config initialize_config_accounts
configured-Custody =
    initialize_config-Custody sample (by 4 10) genesis configured_world configuring 1 400 refl refl

Reach-Custody_example : Custody sample 5 enrolled_world
Reach-Custody_example = Reach-Custody sample-Laws 5 configured-Custody enrolled_reach

enrolled-IsSound : IsSound enrolled_world
enrolled-IsSound =
    Reach-IsSound refl (
      Reach.later (Reach.later (Reach.later Reach.start configured_step) funded_step) enrolled_step)

submitted-IsSound : IsSound submitted_world
submitted-IsSound = Reach-IsSound refl submitted-Reach

approve_claim_pays_example : PaidAmounts submitted_world approved_world payout_keys 100 400
unfolding process sample lookup insert zeros load_config load_task load_claim load_token
    initialize_config initialize_config_accounts initialize_task initialize_task_accounts
    total_bounty enroll enroll_accounts init_if_needed task_status checked_inc claim_status from_u8
    submit submit_accounts status_eq approve_claim approve_accounts auto_approve
    auto_approve_accounts pay_deliverer pay_split compute_fee_split
approve_claim_pays_example =
    approve_claim_pays sample-Laws (by 2 2_000) submitted_world approved_world enrolled_task
      the_config submitted_claim submitted-IsSound refl (omega arith)
      (record { poster = 2; keys = payout_keys }) refl refl refl refl

pay_deliverer_succeeds_example :
    (l' : Ledger) × (pay_deliverer sample submitted_world payout_keys approved the_config
        enrolled_task submitted_claim
      ≡ ok (
          store enrolling.claim (claim_account (set_claim_status approved submitted_claim)) (
            store enrolling.task
              (task_account (record enrolled_task { slots_approved = 1 }))
              (record submitted_world { ledger = l' }))))
unfolding process sample lookup insert zeros load_config load_task load_claim load_token
    initialize_config initialize_config_accounts initialize_task initialize_task_accounts
    total_bounty enroll enroll_accounts init_if_needed task_status checked_inc claim_status from_u8
    submit submit_accounts status_eq approve_claim approve_accounts auto_approve
    auto_approve_accounts pay_deliverer pay_split compute_fee_split
pay_deliverer_succeeds_example =
    pay_deliverer_succeeds sample-Laws submitted_world payout_keys
      (record { mint = 5; owner = 301_327_051_898; amount = 200; frozen = false })
      (record { mint = 5; owner = 3; amount = 0; frozen = false })
      (record { mint = 5; owner = 42_813; amount = 0; frozen = false }) approved the_config
      enrolled_task submitted_claim refl refl refl (omega arith) (omega arith) (omega arith) refl
      refl refl refl refl refl (omega arith) (omega arith) (omega arith) (omega arith) (omega arith)

auto_approve_pays_example :
    PaidAmounts submitted_world auto_approved_world payout_keys 100 400
    × Elapsed (pos 1_000) (pos 2_000_000)
unfolding process sample lookup insert zeros load_config load_task load_claim load_token
    initialize_config initialize_config_accounts initialize_task initialize_task_accounts
    total_bounty enroll enroll_accounts init_if_needed task_status checked_inc claim_status from_u8
    submit submit_accounts status_eq approve_claim approve_accounts auto_approve
    auto_approve_accounts pay_deliverer pay_split compute_fee_split elapsed
auto_approve_pays_example =
    auto_approve_pays sample-Laws (by 4 2_000_000) submitted_world auto_approved_world enrolled_task
      the_config submitted_claim submitted-IsSound refl (omega arith)
      (record { caller = 4; keys = payout_keys }) refl refl refl refl

auto_resolve_dispute_pays_example :
    PaidAmounts disputed_world auto_resolved_world payout_keys 100 400
unfolding process sample lookup insert zeros load_config load_task load_claim load_token
    initialize_config initialize_config_accounts initialize_task initialize_task_accounts
    total_bounty enroll enroll_accounts init_if_needed task_status checked_inc claim_status from_u8
    submit submit_accounts status_eq reject_claim reject_accounts refund_slot open_dispute
    open_dispute_accounts auto_resolve_dispute auto_resolve_accounts pay_deliverer pay_split
    compute_fee_split elapsed
auto_resolve_dispute_pays_example =
    auto_resolve_dispute_pays sample-Laws (by 4 2_000_000) disputed_world auto_resolved_world
      enrolled_task the_config disputed_claim (Reach-IsSound refl disputed-Reach) refl (omega arith)
      (record { caller = 4; keys = payout_keys }) refl refl refl refl

Step-Evolved_example :
    Evolved (SignedIn submitted_step) submitted_world enrolling.claim enrolled_claim
unfolding process sample lookup insert zeros load_config load_task load_claim load_token
    initialize_config initialize_config_accounts initialize_task initialize_task_accounts
    total_bounty enroll enroll_accounts init_if_needed task_status checked_inc claim_status from_u8
Step-Evolved_example = Step-Evolved enrolling.claim enrolled_claim refl submitted_step

Reach-settled_example :
    ClaimAt closed_world enrolling.claim (set_claim_status approved submitted_claim)
unfolding process sample lookup insert zeros load_config load_task load_claim load_token
    initialize_config initialize_config_accounts initialize_task initialize_task_accounts
    total_bounty enroll enroll_accounts init_if_needed task_status checked_inc claim_status from_u8
    submit submit_accounts status_eq approve_claim approve_accounts auto_approve
    auto_approve_accounts pay_deliverer pay_split compute_fee_split is_terminal
Reach-settled_example =
    Reach-settled enrolling.claim (set_claim_status approved submitted_claim) approved refl refl
      refl (Reach.later Reach.start closed_step)

active_task_stays_example :
    (close_task sample (by 2 900) enrolled_world closing ≢ ok funded_world)
    × (cancel_before_enroll sample (by 2 900) enrolled_world cancelling ≢ ok funded_world)
    × (auto_cancel_task sample (by 2 900) enrolled_world auto_cancelling ≢ ok funded_world)
unfolding process sample lookup insert zeros load_config load_task load_claim load_token
    initialize_config initialize_config_accounts initialize_task initialize_task_accounts
    total_bounty enroll enroll_accounts init_if_needed task_status checked_inc claim_status from_u8
active_task_stays_example =
    active_task_stays sample (by 2 900) enrolled_world funded_world enrolled_task closing cancelling
      auto_cancelling refl refl refl (omega arith)

raised_run : Silent sample 3 enrolled_world raised_world
unfolding process sample lookup insert zeros load_config load_task load_claim load_token
    initialize_config initialize_config_accounts initialize_task initialize_task_accounts
    total_bounty enroll enroll_accounts init_if_needed task_status checked_inc claim_status from_u8
    update_fee update_config_accounts
raised_run =
    Silent.later Silent.start
      (executes (by 1 900_000) (Program.update_fee (record { config = 42_813; admin = 1 }) 500)
        (signs 1 900_000 enrolled_world (omega arith) (omega arith) refl) refl)
      (λ e. cc)
      (config_write-SameMint enrolled_world raised_world 42_813 the_config
        (record the_config { fee_bps = 500 }) refl refl refl)

Silent-keeps_claim_example :
    ClaimAt raised_world enrolling.claim enrolled_claim
    × ((t : EscrowTask) × TaskAt raised_world enrolling.task t
        × (task_status t ≡ open_task)
        × (1 ≤ active_slots t)
        × (t.bounty ≤ balance_of (raised_world.ledger 3_014_270_518_985)))
unfolding process sample lookup insert zeros load_config load_task load_claim load_token
    initialize_config initialize_config_accounts initialize_task initialize_task_accounts
    total_bounty enroll enroll_accounts init_if_needed task_status checked_inc claim_status from_u8
    is_claimers_turn
Silent-keeps_claim_example =
    Silent-keeps_claim sample-Laws 5 enrolling.claim enrolled_claim enrolled enrolled-IsSound
      (Reach-Custody sample-Laws 5 configured-Custody enrolled_reach) refl refl refl raised_run

compute_fee_split_lem_example : (compute_fee_split 101 400 ≡ ok (97, 4)) × (97 + 4 ≡ 101)
compute_fee_split_lem_example = compute_fee_split_lem 101 400 (omega arith) (omega arith)

compute_fee_split_cap_example : 4 * 20 ≤ 101
unfolding compute_fee_split
compute_fee_split_cap_example = compute_fee_split_cap 101 400 (omega arith) (omega arith) refl

from_u8_iff_example : (from_u8 5 ≡ some disputed) ↔ (claim_status_to_u8 disputed ≡ 5)
from_u8_iff_example = from_u8_iff 5 disputed
