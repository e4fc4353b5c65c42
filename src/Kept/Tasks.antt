-- ===== src/Kept/Tasks.antt =====
-- The three endings of a task (task.rs) against their promises.
use clustly_solana_escrow.Base.{
  ◌+◌, ◌≤◌, ◌≡◌, ◌⊎◌, sym, true, ◌||◌, ◌==◌, arith, inl, inr, Bool-cases,
}
use clustly_solana_escrow.Base.Int.{ℤ}
use clustly_solana_escrow.Error.{
  deadline_not_reached, claims_not_resolved, task_has_enrollments, invalid_state_transition, ok,
  >>=-eq-ok, require-ok, ok-injective,
}
use clustly_solana_escrow.State.{Pubkey, EscrowConfig, EscrowTask, task_status, is_open}
use clustly_solana_escrow.Platform.{TokenAccount, Ledger, Platform, balance_of}
use clustly_solana_escrow.World.{World, Env, load_config, load_task, load_token}
use clustly_solana_escrow.Closing.{drain_vault, past_deadline}
use clustly_solana_escrow.Task.Cancel.{
  CancelBeforeEnroll, cancel_accounts, cancel_before_enroll, AutoCancelTask, auto_cancel_accounts,
  auto_cancel_task,
}
use clustly_solana_escrow.Task.Close.{CloseTask, close_accounts, active_slots, close_task}
use clustly_solana_escrow.Contract.Reasons.{HasSigned}
use clustly_solana_escrow.Promise.Terms.{ConfigIs, TaskIs, AssociatedIs, TokenIs, DeadlinePassed}
use clustly_solana_escrow.Promise.Tasks.{VaultReturned, TaskWithdrawn, TaskClosed, TaskExpired}
use clustly_solana_escrow.Kept.Steps.{
  keys_eq, open_byte, past_deadline_sound, drain_vault-VaultEmptied,
}

-- What the three endings check alike.
record EndingChecks (p : Platform) (w : World) (config_key task_key vault_key poster_ata : Pubkey)
    (config : EscrowConfig) (task : EscrowTask) (vault : TokenAccount) : Type 0 where
  config_is : ConfigIs p w config_key config
  task_is : TaskIs p w task_key task
  vault_is : AssociatedIs p w.ledger vault_key config.usdc_mint task_key
  poster_ata_is : TokenIs w.ledger poster_ata config.usdc_mint task.poster
  loaded : balance_of (w.ledger vault_key) ≡ vault.amount

cancel_checks :
    (p : Platform) (env : Env) (w : World) (a : CancelBeforeEnroll) {config : EscrowConfig}
    {task : EscrowTask} {vault : TokenAccount}
    → cancel_accounts p env w a ≡ ok (config, task, vault)
    → EndingChecks p w a.config a.task a.task_vault a.poster_ata config task vault
      × (task.poster ≡ a.poster)
      × HasSigned env a.poster
unfolding cancel_accounts load_config load_task load_token
cancel_checks p env w a h = ground arith steps 10000000

close_checks :
    (p : Platform) (env : Env) (w : World) (a : CloseTask) {config : EscrowConfig}
    {task : EscrowTask} {vault : TokenAccount}
    → close_accounts p env w a ≡ ok (config, task, vault)
    → EndingChecks p w a.config a.task a.task_vault a.poster_ata config task vault
      × HasSigned env a.caller
unfolding close_accounts load_config load_task load_token
close_checks p env w a h = ground arith steps 10000000

auto_cancel_checks :
    (p : Platform) (env : Env) (w : World) (a : AutoCancelTask) {config : EscrowConfig}
    {task : EscrowTask} {vault : TokenAccount}
    → auto_cancel_accounts p env w a ≡ ok (config, task, vault)
    → EndingChecks p w a.config a.task a.task_vault a.poster_ata config task vault
      × HasSigned env a.caller
unfolding auto_cancel_accounts load_config load_task load_token
auto_cancel_checks p env w a h = ground arith steps 10000000

vault_returned :
    (p : Platform) (w : World) (config_key task_key vault_key poster_ata : Pubkey)
    (config : EscrowConfig) (task : EscrowTask) (vault : TokenAccount) (ledger : Ledger)
    → EndingChecks p w config_key task_key vault_key poster_ata config task vault
    → is_open (task_status task) ≡ true
    → drain_vault p w.ledger task_key vault_key poster_ata vault.amount ≡ ok ledger
    → VaultReturned p w config_key task_key vault_key poster_ata task ledger
vault_returned p w config_key task_key vault_key poster_ata config task vault ledger f op drained =
    record {
      config = config;
      config_is = f.config_is;
      task_is = f.task_is;
      open_status = open_byte task op;
      vault_is = f.vault_is;
      poster_ata_is = f.poster_ata_is;
      emptied =
          drain_vault-VaultEmptied p w.ledger task_key vault_key poster_ata vault.amount ledger
            f.loaded drained;
    }

-- The poster himself, or anybody after the deadline.
entitled_to :
    (task : EscrowTask) (caller : Pubkey) (now : ℤ)
    → (caller == task.poster || past_deadline task now) ≡ true
    → (caller ≡ task.poster) ⊎ DeadlinePassed task now
entitled_to task caller now h = elim (Bool-cases (past_deadline task now)) [
  | inl late ↦ inr (past_deadline_sound task now late)
  | inr early ↦ inl (ground arith)
]

all_settled :
    (t : EscrowTask) → active_slots t ≡ 0 → t.slots_enrolled ≤ t.slots_approved + t.slots_refunded
all_settled t h = omega arith

pub cancel_before_enroll-TaskWithdrawn :
    (p : Platform) (env : Env) (w w' : World) (a : CancelBeforeEnroll)
    → cancel_before_enroll p env w a ≡ ok w'
    → TaskWithdrawn p env w w' a
unfolding cancel_before_enroll
cancel_before_enroll-TaskWithdrawn p env w w' a h =
    let ((config, task, vault), checked, rest) = >>=-eq-ok (cancel_accounts p env w a) _ h in
    let (idle, rest1) = require-ok (task.slots_enrolled == 0) task_has_enrollments _ rest in
    let (op, rest2) = require-ok (is_open (task_status task)) invalid_state_transition _ rest1 in
    let (ledger, drained, done) =
      >>=-eq-ok (drain_vault p w.ledger a.task a.task_vault a.poster_ata vault.amount) _ rest2 in
    let (f, poster_is, signed) = cancel_checks p env w a checked in
    record {
      task = task;
      ledger = ledger;
      returned =
          vault_returned p w a.config a.task a.task_vault a.poster_ata config task vault ledger f op
            drained;
      by_poster = (poster_is, signed);
      no_enrolments = keys_eq idle;
      written = ok-injective (sym done);
    }

pub close_task-TaskClosed :
    (p : Platform) (env : Env) (w w' : World) (a : CloseTask)
    → close_task p env w a ≡ ok w'
    → TaskClosed p env w w' a
unfolding close_task
close_task-TaskClosed p env w w' a h =
    let ((config, task, vault), checked, rest) = >>=-eq-ok (close_accounts p env w a) _ h in
    let (may, rest1) = require-ok _ deadline_not_reached _ rest in
    let (op, rest2) = require-ok (is_open (task_status task)) invalid_state_transition _ rest1 in
    let (idle, rest3) = require-ok (active_slots task == 0) claims_not_resolved _ rest2 in
    let (ledger, drained, done) =
      >>=-eq-ok (drain_vault p w.ledger a.task a.task_vault a.poster_ata vault.amount) _ rest3 in
    let (f, signed) = close_checks p env w a checked in
    record {
      task = task;
      ledger = ledger;
      returned =
          vault_returned p w a.config a.task a.task_vault a.poster_ata config task vault ledger f op
            drained;
      signed = signed;
      entitled = entitled_to task a.caller env.now may;
      settled = all_settled task (keys_eq idle);
      written = ok-injective (sym done);
    }

pub auto_cancel_task-TaskExpired :
    (p : Platform) (env : Env) (w w' : World) (a : AutoCancelTask)
    → auto_cancel_task p env w a ≡ ok w'
    → TaskExpired p env w w' a
unfolding auto_cancel_task
auto_cancel_task-TaskExpired p env w w' a h =
    let ((config, task, vault), checked, rest) = >>=-eq-ok (auto_cancel_accounts p env w a) _ h in
    let (idle, rest1) = require-ok (task.slots_enrolled == 0) task_has_enrollments _ rest in
    let (op, rest2) = require-ok (is_open (task_status task)) invalid_state_transition _ rest1 in
    let (late, rest3) = require-ok (past_deadline task env.now) deadline_not_reached _ rest2 in
    let (ledger, drained, done) =
      >>=-eq-ok (drain_vault p w.ledger a.task a.task_vault a.poster_ata vault.amount) _ rest3 in
    let (f, signed) = auto_cancel_checks p env w a checked in
    record {
      task = task;
      ledger = ledger;
      returned =
          vault_returned p w a.config a.task a.task_vault a.poster_ata config task vault ledger f op
            drained;
      signed = signed;
      late = past_deadline_sound task env.now late;
      no_enrolments = keys_eq idle;
      written = ok-injective (sym done);
    }
