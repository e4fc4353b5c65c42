-- ===== src/Promise/Tasks.antt =====
-- What the task instructions promise (task.rs).
use clustly_solana_escrow.Base.{◌+◌, ◌*◌, ◌^◌, ◌≤◌, ◌<◌, ◌≡◌, ◌⊎◌, true, none}
use clustly_solana_escrow.Base.Dict.{lookup, erase}
use clustly_solana_escrow.Error.{ok}
use clustly_solana_escrow.State.{Pubkey, zeros, EscrowConfig, EscrowTask}
use clustly_solana_escrow.Platform.{Ledger, Platform}
use clustly_solana_escrow.World.{World, Env, task_account, task_seeds, store}
use clustly_solana_escrow.Task.Initialize.{InitializeTask, TaskArgs}
use clustly_solana_escrow.Task.Cancel.{CancelBeforeEnroll, AutoCancelTask}
use clustly_solana_escrow.Task.Close.{CloseTask}
use clustly_solana_escrow.Contract.Reasons.{HasSigned}
use clustly_solana_escrow.Promise.Terms.{
  ConfigIs, TaskIs, AssociatedIs, TokenIs, VaultEmptied, DeadlinePassed,
}

-- The task that is asked for: open, without claims, with the bump of its address.
abbrev pub task_asked : Platform → InitializeTask → TaskArgs → EscrowTask
task_asked p a args = record {
  task_id = args.task_id;
  poster = a.poster;
  bounty = args.bounty;
  max_slots = args.max_slots;
  slots_enrolled = 0;
  slots_approved = 0;
  slots_refunded = 0;
  status = 0;
  task_deadline_ts = args.task_deadline_ts;
  claim_deadline_secs = args.claim_deadline_secs;
  bump = (p.find_program_address (task_seeds args.task_id)).1;
  vault_bump = 0;
  reserved = zeros 32;
}

-- An open task appears, as given and without any claim, with a new vault of the pinned mint, to
-- which the poster has paid the bounty of all the slots.
pub record TaskFunded (p : Platform) (env : Env) (w w' : World) (a : InitializeTask)
    (args : TaskArgs) : Type 0 where
  pub config : EscrowConfig
  pub signed : HasSigned env a.poster
  pub config_is : ConfigIs p w a.config config
  pub mint_is : w.is_mint a.usdc_mint ≡ true
  pub pinned : config.usdc_mint ≡ a.usdc_mint
  pub address : (p.find_program_address (task_seeds args.task_id)).0 ≡ a.task
  pub unused : lookup a.task w.accounts ≡ none
  pub vault_at : p.associated_token a.task a.usdc_mint ≡ a.task_vault
  pub bounty_positive : 0 < args.bounty
  pub slots_range : (1 ≤ args.max_slots) × (args.max_slots ≤ 100)
  pub fits : args.bounty * args.max_slots < 2 ^ 64
  pub between : Ledger
  pub ledger : Ledger
  pub vault_opened : p.create_associated w.ledger a.task a.usdc_mint ≡ ok between
  pub poster_ata_is : TokenIs between a.poster_ata a.usdc_mint a.poster
  pub paid_in :
      p.transfer between a.poster_ata a.task_vault a.poster (args.bounty * args.max_slots)
      ≡ ok ledger
  pub written :
      w' ≡ store a.task (task_account (task_asked p a args)) (record w { ledger = ledger })

-- The vault of an open task is emptied into a token account of its poster.
pub record VaultReturned (p : Platform) (w : World) (config_key task_key vault poster_ata : Pubkey)
    (task : EscrowTask) (ledger : Ledger) : Type 0 where
  pub config : EscrowConfig
  pub config_is : ConfigIs p w config_key config
  pub task_is : TaskIs p w task_key task
  pub open_status : task.status ≡ 0
  pub vault_is : AssociatedIs p w.ledger vault config.usdc_mint task_key
  pub poster_ata_is : TokenIs w.ledger poster_ata config.usdc_mint task.poster
  pub emptied : VaultEmptied p w.ledger task_key vault poster_ata ledger

-- On the poster's word, a task without enrolments gives everything back and goes off the chain.
pub record TaskWithdrawn (p : Platform) (env : Env) (w w' : World) (a : CancelBeforeEnroll)
    : Type 0 where
  pub task : EscrowTask
  pub ledger : Ledger
  pub returned : VaultReturned p w a.config a.task a.task_vault a.poster_ata task ledger
  pub by_poster : (task.poster ≡ a.poster) × HasSigned env a.poster
  pub no_enrolments : task.slots_enrolled ≡ 0
  pub written : w' ≡ record w { accounts = erase a.task w.accounts; ledger = ledger }

-- On the word of the poster, or of anybody when the deadline has passed, a task whose enrolments
-- are all settled gives everything back and is closed.
pub record TaskClosed (p : Platform) (env : Env) (w w' : World) (a : CloseTask) : Type 0 where
  pub task : EscrowTask
  pub ledger : Ledger
  pub returned : VaultReturned p w a.config a.task a.task_vault a.poster_ata task ledger
  pub signed : HasSigned env a.caller
  pub entitled : (a.caller ≡ task.poster) ⊎ DeadlinePassed task env.now
  pub settled : task.slots_enrolled ≤ task.slots_approved + task.slots_refunded
  pub written :
      w' ≡ store a.task (task_account (record task { status = 1 })) (record w { ledger = ledger })

-- When the deadline has passed, a task without enrolments gives everything back and is closed.
pub record TaskExpired (p : Platform) (env : Env) (w w' : World) (a : AutoCancelTask) : Type 0 where
  pub task : EscrowTask
  pub ledger : Ledger
  pub returned : VaultReturned p w a.config a.task a.task_vault a.poster_ata task ledger
  pub signed : HasSigned env a.caller
  pub late : DeadlinePassed task env.now
  pub no_enrolments : task.slots_enrolled ≡ 0
  pub written :
      w' ≡ store a.task (task_account (record task { status = 1 })) (record w { ledger = ledger })
