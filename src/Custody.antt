-- ===== src/Custody.antt =====
-- Custody over the runs of the program: the vaults of open tasks under every instruction.
pub mod Spending
pub mod Defs
pub mod Writes
pub mod Transitions
pub mod Lifetime
use clustly_solana_escrow.Base.{ℕ, ◌≡◌, ◌≢◌, refl, ◌∙◌, none, some, [], arith}
use clustly_solana_escrow.Base.Dict.{lookup, insert, lookup-insert}
use clustly_solana_escrow.Error.{ok}
use clustly_solana_escrow.State.{Pubkey, EscrowConfig, EscrowTask}
use clustly_solana_escrow.Platform.{Platform}
use clustly_solana_escrow.Platform.Laws.{Laws}
use clustly_solana_escrow.World.{World, Env, Account, config_account, task_account}
use clustly_solana_escrow.Config.{InitializeConfig, initialize_config}
use clustly_solana_escrow.Contract.Reasons.{ConfigAt, TaskAt}
use clustly_solana_escrow.Contract.Tasks.{Configured, Repinned}
use clustly_solana_escrow.Contract.{
  Transition, configured, reconfigured, repinned, funded, withdrawn, closed, slot_taken,
  claim_moved, paid, refunded, fees_taken,
}
use clustly_solana_escrow.Refines.{process-Transition}
use clustly_solana_escrow.Kept.Admin.{initialize_config-ConfigCreated}
use clustly_solana_escrow.Promise.Admin.{config_asked}
use clustly_solana_escrow.System.{
  WalletsSign, Step, executes, others_act, SameMint, ReachPinned, start, later,
}
use Spending.{Spends-none}
use Defs.{Custody}
use Writes.{once-Custody}
use Transitions.{
  Paid-Custody, Refunded-Custody, SlotTaken-Custody, ClaimMoved-Custody, Reconfigured-Custody,
  FeesTaken-Custody,
}
use Lifetime.{Funded-Custody, Drained_closed-Custody, Drained_withdrawn-Custody}

module _ {p : Platform} (laws : Laws p) (mint : Pubkey) where
  config_case : (c d : EscrowConfig) → config_account d ≡ config_account c → d ≡ c
  config_case c d h = ground arith

  Repinned-Custody :
      {env : Env} {w w' : World}
      → SameMint w w'
      → Custody p mint w
      → Repinned env w w'
      → Custody p mint w'
  Repinned-Custody {w} {w'} same c m =
      let config' : EscrowConfig = record m.config { usdc_mint = m.mint } in
      let now_there : ConfigAt w' m.config_key config' = rw m.written (
        rw (lookup-insert m.config_key m.config_key (config_account config') w.accounts)
          (ground arith)) in
      let pin : m.mint ≡ mint =
        same m.config_key m.config config' m.config_at now_there
        ∙ c.pinned m.config_key m.config m.config_at in
      rw m.written (
        once-Custody p mint w m.config_key (config_account config') w.ledger m.config_key c
          (λ d h. (config', refl)) (λ d h. rw (config_case config' d h) pin)
          (Spends-none m.config_key w.ledger).keeps (λ k t h ne. ne) (λ t h op. cc))

  config_once : {w w' : World} → Custody p mint w → Configured p w w' → Custody p mint w'
  config_once {w} c m =
      let (d, there) = c.configured in
      absurd (taken w m.config_key d m.unused (rw m.config_at at there))
    where
      taken :
          (w : World) (k : Pubkey) (d : EscrowConfig)
          → lookup k w.accounts ≡ none
          → ConfigAt w k d
          → ⊥
      taken w k d u h = ground arith

  -- Every transition keeps the vaults covered, as long as wallets sign and the mint stays.
  Transition-Custody :
      {env : Env} {w w' : World}
      → WalletsSign p env w
      → SameMint w w'
      → Transition p env w w'
      → Custody p mint w
      → Custody p mint w'
  Transition-Custody sign same (configured m) c = config_once c m
  Transition-Custody sign same (reconfigured m) c = Reconfigured-Custody laws mint c m
  Transition-Custody sign same (repinned m) c = Repinned-Custody same c m
  Transition-Custody sign same (funded m) c = Funded-Custody laws mint sign c m
  Transition-Custody sign same (withdrawn d idle e) c =
      rw e (Drained_withdrawn-Custody laws mint c d)
  Transition-Custody sign same (closed d e) c = rw e (Drained_closed-Custody laws mint c d)
  Transition-Custody sign same (slot_taken m) c = SlotTaken-Custody laws mint c m
  Transition-Custody sign same (claim_moved m) c = ClaimMoved-Custody laws mint c m
  Transition-Custody sign same (paid m) c = Paid-Custody laws mint c m
  Transition-Custody sign same (refunded m) c = Refunded-Custody laws mint c m
  Transition-Custody sign same (fees_taken m) c = FeesTaken-Custody laws mint c m

  task_present :
      (w : World) (k : Pubkey) (t : EscrowTask) → TaskAt w k t → lookup k w.accounts ≢ none
  task_present w k t h n = ground arith

  pub Step-Custody :
      {w w' : World} → Step p w w' → SameMint w w' → Custody p mint w → Custody p mint w'
  Step-Custody {w} {w'} (executes env i sign h) same c =
      Transition-Custody sign same (process-Transition p env w w' i h) c
  Step-Custody {w} (others_act l mints act e) same c = rw e (record {
    configured = c.configured;
    pinned = c.pinned;
    covered = λ k t h op.
        let (owned, enough) = c.covered k t h op in
        let (owned', le) = act (p.associated_token k mint) k owned (task_present w k t h) in
        (owned', omega arith);
  })

  -- If the vaults of open tasks are covered at the start, they are in every state that is reached
  -- without a change of the mint, by any instructions that wallets sign and any outside changes
  -- to the tokens that take nothing from the accounts of the program: the vault of each open task
  -- exists, belongs to the task and holds at least the bounty of every slot that is neither paid
  -- nor refunded.
  pub Reach-Custody : {s w : World} → Custody p mint s → ReachPinned p s w → Custody p mint w
  Reach-Custody c start = c
  Reach-Custody c (later r st same) = Step-Custody st same (Reach-Custody c r)

no_accounts :
    (s : World) (k j : Pubkey) (a : Account) {b : Account}
    → s.accounts ≡ []
    → lookup k (insert j a s.accounts) ≡ some b
    → (k ≡ j) × (b ≡ a)
unfolding lookup insert
no_accounts s k j a e h = ground arith

-- Where the program has no account yet, a successful configuration leaves the vaults of all open
-- tasks covered, there being none, and the given mint pinned.
pub initialize_config-Custody :
    (p : Platform) (env : Env) (s s' : World) (a : InitializeConfig) (admin : Pubkey) (fee_bps : ℕ)
    → s.accounts ≡ []
    → initialize_config p env s a admin fee_bps ≡ ok s'
    → Custody p a.usdc_mint s'
initialize_config-Custody p env s s' a admin fee_bps e h =
    let m = initialize_config-ConfigCreated p env s s' a admin fee_bps h in
    let c = config_asked p a admin fee_bps in
    let there : lookup a.config (insert a.config (config_account c) s.accounts)
        ≡ some (config_account c) =
      rw (lookup-insert a.config a.config (config_account c) s.accounts) (ground arith) in
    rw m.written (record {
      configured = (c, rw m.address there);
      pinned = λ k d g.
          config_mint c d a.usdc_mint refl (no_accounts s k a.config (config_account c) e g).1;
      covered = λ k t g op. not_a_task c t (no_accounts s k a.config (config_account c) e g).1;
    })
  where
    config_mint :
        (c d : EscrowConfig) (mint : Pubkey)
        → c.usdc_mint ≡ mint
        → config_account d ≡ config_account c
        → d.usdc_mint ≡ mint
    config_mint c d mint p1 q = ground arith

    not_a_task :
        (c : EscrowConfig) (t : EscrowTask) {A : Type 0} → task_account t ≡ config_account c → A
    not_a_task c t q = cc
