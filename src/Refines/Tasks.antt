-- ===== src/Refines/Tasks.antt =====
-- The promises of task.rs as transitions of the contract.
use clustly_solana_escrow.Base.{◌+◌, ◌≤◌, ◌≡◌, ◌⊎◌, inl, inr, refl, arith}
use clustly_solana_escrow.State.{Pubkey, EscrowTask, open_task}
use clustly_solana_escrow.State.Status.{task_status-set}
use clustly_solana_escrow.Platform.{Ledger, Platform}
use clustly_solana_escrow.World.{World, Env}
use clustly_solana_escrow.Task.Initialize.{InitializeTask, TaskArgs}
use clustly_solana_escrow.Task.Cancel.{CancelBeforeEnroll, AutoCancelTask}
use clustly_solana_escrow.Task.Close.{CloseTask, active_slots}
use clustly_solana_escrow.Contract.Reasons.{HasSigned}
use clustly_solana_escrow.Contract.Tasks.{Funded, Drained}
use clustly_solana_escrow.Contract.{Transition, withdrawn, closed}
use clustly_solana_escrow.Promise.Terms.{DeadlinePassed}
use clustly_solana_escrow.Promise.Tasks.{
  task_asked, TaskFunded, VaultReturned, TaskWithdrawn, TaskClosed, TaskExpired,
}
use clustly_solana_escrow.Refines.Bytes.{open_of_byte}

pub TaskFunded-Funded :
    {p : Platform} {env : Env} {w w' : World} {a : InitializeTask} {args : TaskArgs}
    → TaskFunded p env w w' a args
    → Funded p env w w'
TaskFunded-Funded {p} {a = a} {args} m = record {
  config_key = a.config;
  task_key = a.task;
  vault = a.task_vault;
  poster_ata = a.poster_ata;
  config = m.config;
  task = task_asked p a args;
  opened_ledger = m.between;
  ledger = m.ledger;
  config_at = m.config_is.0;
  unused = m.unused;
  derived = m.address;
  signed = m.signed;
  status = task_status-set open_task (task_asked p a args);
  fresh = (refl, refl, refl);
  bounty_positive = m.bounty_positive;
  slots_range = m.slots_range;
  fits = m.fits;
  vault_at = rw m.pinned m.vault_at;
  vault_opened = rw m.pinned m.vault_opened;
  poster_owned = m.poster_ata_is.1;
  transferred = m.paid_in;
  written = m.written;
}

none_active :
    (t : EscrowTask) → t.slots_enrolled ≤ t.slots_approved + t.slots_refunded → active_slots t ≡ 0
none_active t h = omega arith

none_enrolled :
    (t : EscrowTask) → t.slots_enrolled ≡ 0 → t.slots_enrolled ≤ t.slots_approved + t.slots_refunded
none_enrolled t h = omega arith

abbrev drained_by :
    {p : Platform} {w : World} {config_key task_key vault poster_ata : Pubkey} {task : EscrowTask}
    {ledger : Ledger} (env : Env)
    → VaultReturned p w config_key task_key vault poster_ata task ledger
    → task.slots_enrolled ≤ task.slots_approved + task.slots_refunded
    → HasSigned env task.poster ⊎ DeadlinePassed task env.now
    → Drained p env w
drained_by {config_key = config_key} {task_key} {vault} {poster_ata} {task} {ledger} env m idle
      entitled =
    record {
      config_key = config_key;
      task_key = task_key;
      vault = vault;
      poster_ata = poster_ata;
      config = m.config;
      task = task;
      ledger = ledger;
      config_at = m.config_is.0;
      task_at = m.task_is.0;
      status = open_of_byte task m.open_status;
      settled = none_active task idle;
      entitled = entitled;
      vault_owned = m.vault_is.0;
      vault_at = m.vault_is.1;
      poster_owned = m.poster_ata_is.1;
      emptied = m.emptied;
    }

pub TaskWithdrawn-Transition :
    {p : Platform} {env : Env} {w w' : World} {a : CancelBeforeEnroll}
    → TaskWithdrawn p env w w' a
    → Transition p env w w'
TaskWithdrawn-Transition {env = env} m =
    withdrawn
      (drained_by env m.returned (none_enrolled m.task m.no_enrolments)
        (inl (rw m.by_poster.0 m.by_poster.1)))
      m.no_enrolments m.written

-- The caller's right is the poster's signature or the deadline.
poster_or_late :
    (env : Env) (task : EscrowTask) (caller : Pubkey)
    → HasSigned env caller
    → (caller ≡ task.poster) ⊎ DeadlinePassed task env.now
    → HasSigned env task.poster ⊎ DeadlinePassed task env.now
poster_or_late env task caller s (inl e) = inl (rw (← e) s)
poster_or_late env task caller s (inr late) = inr late

pub TaskClosed-Transition :
    {p : Platform} {env : Env} {w w' : World} {a : CloseTask}
    → TaskClosed p env w w' a
    → Transition p env w w'
TaskClosed-Transition {env = env} {a = a} m =
    closed
      (drained_by env m.returned m.settled (poster_or_late env m.task a.caller m.signed m.entitled))
      m.written

pub TaskExpired-Transition :
    {p : Platform} {env : Env} {w w' : World} {a : AutoCancelTask}
    → TaskExpired p env w w' a
    → Transition p env w w'
TaskExpired-Transition {env = env} m =
    closed (drained_by env m.returned (none_enrolled m.task m.no_enrolments) (inr m.late)) m.written
