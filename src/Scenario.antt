-- ===== src/Scenario.antt =====
-- A run of the program on the sample platform: a configuration with a rate of 4 %, a task of two
-- slots of 100 units each, an enrolment, and the ends that the claim can take. The admin is 1, the
-- poster 2, the claimer 3, the payer 4, and the mint 5.
pub mod Steps
use clustly_solana_escrow.Base.{
  ℕ, ◌≡◌, refl, Bool, true, false, Option, none, some, List, [], ◌∷◌, ◌==◌, if◌then◌else◌,
}
use clustly_solana_escrow.Base.Int.{ℤ, pos}
use clustly_solana_escrow.Error.{Result, ok, err}
use clustly_solana_escrow.State.{
  set_claim_status, submitted, disputed, Bytes, zeros, EscrowConfig, EscrowTask, EscrowClaim,
}
use clustly_solana_escrow.Platform.{Ledger, TokenAccount}
use clustly_solana_escrow.Platform.Sample.{sample}
use clustly_solana_escrow.World.{World, Env}
use clustly_solana_escrow.Payout.{PayoutKeys}
use clustly_solana_escrow.Config.{InitializeConfig}
use clustly_solana_escrow.Task.Initialize.{new_task, InitializeTask, TaskArgs}
use clustly_solana_escrow.Task.Close.{CloseTask}
use clustly_solana_escrow.Task.Cancel.{CancelBeforeEnroll, AutoCancelTask}
use clustly_solana_escrow.Claim.Enroll.{new_claim, Enroll}
use clustly_solana_escrow.Claim.Submit.{Submit}
use clustly_solana_escrow.Claim.Approve.{ApproveClaim, AutoApprove}
use clustly_solana_escrow.Claim.Reject.{RejectClaim}
use clustly_solana_escrow.Dispute.{OpenDispute, AutoResolveDispute}
use clustly_solana_escrow.Program.{
  Instruction, process, initialize_config, initialize_task, enroll, submit, approve_claim,
  reject_claim, auto_approve, open_dispute, auto_resolve_dispute, close_task, update_fee,
}

abbrev pub by : ℕ → ℕ → Env
by who time = record { is_signer = λ k. k == who; now = pos time }

abbrev purse : ℕ → ℕ → TokenAccount
purse owner amount = record { mint = 5; owner = owner; amount = amount; frozen = false }

abbrev pub genesis : World
genesis = record {
  accounts = [];
  ledger = λ k.
      if k == 1_000_000_025
      then some (purse 2 1_000)
      else if k == 1_000_000_035
      then some (purse 3 0)
      else none;
  is_mint = λ k. k == 5;
}

abbrev after : World → Result World → World
after w (ok w') = w'
after w (err e) = w

abbrev pub run : ℕ → ℕ → World → Instruction → World
run who time w i = after w (process sample (by who time) w i)

abbrev pub configuring : InitializeConfig
configuring = record { payer = 4; config = 42_813; usdc_mint = 5; fee_vault = 1_000_428_135 }

abbrev pub funding : InitializeTask
funding = record {
  poster = 2;
  config = 42_813;
  usdc_mint = 5;
  task = 301_327_051_898;
  task_vault = 3_014_270_518_985;
  poster_ata = 1_000_000_025;
}

abbrev pub terms : TaskArgs
unfolding zeros
terms = record {
  task_id = zeros 16;
  bounty = 100;
  max_slots = 2;
  claim_deadline_secs = 60;
  task_deadline_ts = pos 500;
}

abbrev pub enrolling : Enroll
enrolling = record {
  claimer = 3;
  config = 42_813;
  usdc_mint = 5;
  task = 301_327_051_898;
  claim = 301_327_061_661;
  claimer_ata = 1_000_000_035;
}

abbrev pub submitting : Submit
submitting = record { claimer = 3; task = 301_327_051_898; claim = 301_327_061_661 }

abbrev pub payout_keys : PayoutKeys
payout_keys = record {
  config = 42_813;
  usdc_mint = 5;
  task = 301_327_051_898;
  claim = 301_327_061_661;
  task_vault = 3_014_270_518_985;
  claimer_ata = 1_000_000_035;
  claimer = 3;
  fee_vault = 1_000_428_135;
}

abbrev pub rejecting : RejectClaim
rejecting = record {
  poster = 2;
  config = 42_813;
  task = 301_327_051_898;
  claim = 301_327_061_661;
  task_vault = 3_014_270_518_985;
  poster_ata = 1_000_000_025;
}

abbrev pub claim_id : Bytes
unfolding zeros
claim_id = zeros 16

abbrev pub configured_world : World
unfolding process sample
configured_world = run 4 10 genesis (initialize_config configuring 1 400)

abbrev pub funded_world : World
funded_world = run 2 20 configured_world (initialize_task funding terms)

abbrev pub enrolled_world : World
enrolled_world = run 3 30 funded_world (enroll enrolling claim_id)

abbrev pub enrolled_task : EscrowTask
enrolled_task = record (new_task funding terms 255) { slots_enrolled = 1 }

abbrev pub submitted_world : World
submitted_world = run 3 1_000 enrolled_world (submit submitting (7 ∷ []))

abbrev pub approved_world : World
approved_world =
    run 2 2_000 submitted_world (approve_claim (record { poster = 2; keys = payout_keys }))

abbrev pub auto_approved_world : World
auto_approved_world =
    run 4 2_000_000 submitted_world (auto_approve (record { caller = 4; keys = payout_keys }))

abbrev pub rejected_world : World
rejected_world = run 2 3_000 submitted_world (reject_claim rejecting)

abbrev pub disputed_world : World
disputed_world =
    run 3 4_000 rejected_world
      (open_dispute (record { claimer = 3; task = 301_327_051_898; claim = 301_327_061_661 }))

abbrev pub auto_resolved_world : World
auto_resolved_world =
    run 4 2_000_000 disputed_world
      (auto_resolve_dispute (record { caller = 4; keys = payout_keys }))

abbrev pub closing : CloseTask
closing = record {
  caller = 4;
  config = 42_813;
  task = 301_327_051_898;
  task_vault = 3_014_270_518_985;
  poster_ata = 1_000_000_025;
  poster = 2;
}

abbrev pub cancelling : CancelBeforeEnroll
cancelling = record {
  poster = 2;
  config = 42_813;
  task = 301_327_051_898;
  task_vault = 3_014_270_518_985;
  poster_ata = 1_000_000_025;
}

abbrev pub auto_cancelling : AutoCancelTask
auto_cancelling = record {
  caller = 4;
  config = 42_813;
  task = 301_327_051_898;
  task_vault = 3_014_270_518_985;
  poster_ata = 1_000_000_025;
  poster = 2;
}

abbrev pub closed_world : World
closed_world = run 4 3_000 approved_world (close_task closing)

abbrev pub raised_world : World
raised_world = run 1 900_000 enrolled_world (update_fee (record { config = 42_813; admin = 1 }) 500)

abbrev pub the_config : EscrowConfig
unfolding zeros
the_config = record {
  admin = 1;
  usdc_mint = 5;
  fee_bps = 400;
  bump = 255;
  fee_vault_bump = 0;
  reserved = zeros 64;
}

abbrev pub enrolled_claim : EscrowClaim
enrolled_claim = new_claim enrolling claim_id 255 (pos 30)

abbrev pub submitted_claim : EscrowClaim
submitted_claim = record (set_claim_status submitted enrolled_claim) {
  submitted_at = pos 1_000;
  deliverable_hash = 7 ∷ [];
}

abbrev pub disputed_claim : EscrowClaim
disputed_claim = record (set_claim_status disputed submitted_claim) {
  rejections = 1;
  disputed_at = pos 4_000;
}
