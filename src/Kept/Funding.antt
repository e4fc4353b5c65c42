-- ===== src/Kept/Funding.antt =====
-- The funding of a task (task.rs, `initialize_task`) against its promise.
use clustly_solana_escrow.Base.{ℕ, ◌*◌, ◌^◌, ◌≤◌, ◌<◌, ◌≡◌, sym, true, ◌&&◌, none, ltb, leb, arith}
use clustly_solana_escrow.Base.Dict.{lookup}
use clustly_solana_escrow.Error.{
  zero_bounty, invalid_slots, ok, >>=-eq-ok, require-ok, ok-injective,
}
use clustly_solana_escrow.State.{Bytes, EscrowConfig, max_slots_limit}
use clustly_solana_escrow.Platform.{Ledger, Platform}
use clustly_solana_escrow.World.{World, Env, load_config, load_token, task_seeds}
use clustly_solana_escrow.Task.Initialize.{
  InitializeTask, TaskArgs, initialize_task_accounts, total_bounty, initialize_task,
}
use clustly_solana_escrow.Contract.Reasons.{HasSigned}
use clustly_solana_escrow.Promise.Terms.{ConfigIs, TokenIs}
use clustly_solana_escrow.Promise.Tasks.{TaskFunded}

record FundingChecks (p : Platform) (env : Env) (w : World) (a : InitializeTask) (task_id : Bytes)
    (config : EscrowConfig) (bump : ℕ) (ledger : Ledger) : Type 0 where
  signed : HasSigned env a.poster
  config_is : ConfigIs p w a.config config
  mint_is : w.is_mint a.usdc_mint ≡ true
  pinned : config.usdc_mint ≡ a.usdc_mint
  address : (p.find_program_address (task_seeds task_id)).0 ≡ a.task
  canonical : bump ≡ (p.find_program_address (task_seeds task_id)).1
  unused : lookup a.task w.accounts ≡ none
  vault_at : p.associated_token a.task a.usdc_mint ≡ a.task_vault
  opened : p.create_associated w.ledger a.task a.usdc_mint ≡ ok ledger
  poster_ata_is : TokenIs ledger a.poster_ata a.usdc_mint a.poster

funding_checks :
    (p : Platform) (env : Env) (w : World) (a : InitializeTask) (task_id : Bytes)
    {config : EscrowConfig} {bump : ℕ} {ledger : Ledger}
    → initialize_task_accounts p env w a task_id ≡ ok (config, bump, ledger)
    → FundingChecks p env w a task_id config bump ledger
unfolding initialize_task_accounts load_config load_token
funding_checks p env w a task_id h = ground arith steps 10000000

-- The guards on the arguments, and the total that is paid.
guards_hold :
    (args : TaskArgs) {total : ℕ}
    → ltb 0 args.bounty ≡ true
    → (leb 1 args.max_slots && leb args.max_slots max_slots_limit) ≡ true
    → total_bounty args.bounty args.max_slots ≡ ok total
    → (0 < args.bounty)
      × ((1 ≤ args.max_slots) × (args.max_slots ≤ 100))
      × (args.bounty * args.max_slots < 2 ^ 64)
      × (total ≡ args.bounty * args.max_slots)
unfolding total_bounty
guards_hold args h g t = (ground arith, (ground arith, ground arith), ground arith, ground arith)

pub initialize_task-TaskFunded :
    (p : Platform) (env : Env) (w w' : World) (a : InitializeTask) (args : TaskArgs)
    → initialize_task p env w a args ≡ ok w'
    → TaskFunded p env w w' a args
unfolding initialize_task
initialize_task-TaskFunded p env w w' a args h =
    let ((config, bump, between), checked, rest) =
      >>=-eq-ok (initialize_task_accounts p env w a args.task_id) _ h in
    let (positive, rest1) = require-ok (ltb 0 args.bounty) zero_bounty _ rest in
    let (range, rest2) = require-ok _ invalid_slots _ rest1 in
    let (total, totalled, rest3) = >>=-eq-ok (total_bounty args.bounty args.max_slots) _ rest2 in
    let (ledger, paid, done) =
      >>=-eq-ok (p.transfer between a.poster_ata a.task_vault a.poster total) _ rest3 in
    let f = funding_checks p env w a args.task_id checked in
    let (bounty_positive, slots_range, fits, product) = guards_hold args positive range totalled in
    record {
      config = config;
      signed = f.signed;
      config_is = f.config_is;
      mint_is = f.mint_is;
      pinned = f.pinned;
      address = f.address;
      unused = f.unused;
      vault_at = f.vault_at;
      bounty_positive = bounty_positive;
      slots_range = slots_range;
      fits = fits;
      between = between;
      ledger = ledger;
      vault_opened = f.opened;
      poster_ata_is = f.poster_ata_is;
      paid_in = rw (← product) paid;
      written = rw (← f.canonical) (ok-injective (sym done));
    }
