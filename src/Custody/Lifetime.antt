-- ===== src/Custody/Lifetime.antt =====
-- Custody at the two ends of a task: when it is funded and when its vault is emptied.
use clustly_solana_escrow.Base.{ℕ, ◌*◌, ◌≤◌, ◌≡◌, ◌≢◌, sym, ap, ◌∙◌, none, some, arith}
use clustly_solana_escrow.Base.Dict.{lookup, erase, lookup-erase}
use clustly_solana_escrow.State.{
  Pubkey, EscrowConfig, EscrowTask, task_status, set_task_status, open_task, closed_task,
}
use clustly_solana_escrow.State.Status.{task_status-set}
use clustly_solana_escrow.Platform.{Ledger, Platform, balance_of}
use clustly_solana_escrow.Platform.Laws.{Laws, moved, opened, empty_token}
use clustly_solana_escrow.World.{
  World, Env, config_account, task_account, config_seeds, task_seeds, store,
}
use clustly_solana_escrow.Contract.Reasons.{IsOwned, ConfigAt, TaskAt}
use clustly_solana_escrow.Contract.Tasks.{Funded, Drained}
use clustly_solana_escrow.Custody.Spending.{
  Spends-then, transfer-Spends, VaultEmptied-keeps, create-Spends,
}
use clustly_solana_escrow.Custody.Defs.{unsettled, Covered, Custody, Covered-others}
use clustly_solana_escrow.Custody.Writes.{once-Custody}
use clustly_solana_escrow.System.{WalletsSign}

-- A new vault after the first transfer into it.
funded_vault :
    (l l1 l2 : Ledger) (from vault : Pubkey) (n : ℕ) (mint owner source : Pubkey)
    → l1 ≡ opened l vault (empty_token mint owner)
    → l2 ≡ moved l1 from vault n
    → IsOwned (l1 from) source
    → source ≢ owner
    → IsOwned (l2 vault) owner × (n ≤ balance_of (l2 vault))
funded_vault l l1 l2 from vault n mint owner source e1 e2 s ne = rw (e2, e1) (credited (rw e1 at s))
  where
    credited :
        IsOwned (opened l vault (empty_token mint owner) from) source
        → IsOwned (moved (opened l vault (empty_token mint owner)) from vault n vault) owner
          × (n ≤ balance_of (moved (opened l vault (empty_token mint owner)) from vault n vault))
    credited t = unfold moved opened in (ground arith, ground arith)

unused_config :
    (w : World) (k : Pubkey) (d : EscrowConfig) → lookup k w.accounts ≡ none → ConfigAt w k d → ⊥
unused_config w k d u h = ground arith

not_wallet :
    (w : World) (k : Pubkey) (t : EscrowTask) (j : Pubkey)
    → TaskAt w k t
    → lookup j w.accounts ≡ none
    → k ≢ j
not_wallet w k t j h n same = ground arith

other_kind :
    (w : World) (k : Pubkey) (t : EscrowTask) (d : EscrowConfig) → TaskAt w k t → ConfigAt w k d → ⊥
other_kind w k t d h g = ground arith

task_case : (t u : EscrowTask) → task_account u ≡ task_account t → t ≡ u
task_case t u h = ground arith

module _ {p : Platform} (laws : Laws p) (mint : Pubkey) where
  Funded-Covered :
      {env : Env} {w w' : World} (m : Funded p env w w')
      → m.config.usdc_mint ≡ mint
      → m.task.poster ≢ m.task_key
      → Covered p mint m.ledger m.task_key m.task
  Funded-Covered {w = w} m pin ne =
      let n : ℕ = m.task.bounty * m.task.max_slots in
      let e1 =
        (laws.create_sound w.ledger m.task_key m.config.usdc_mint m.opened_ledger
          m.vault_opened).1 in
      let e2 =
        (laws.transfer_sound m.opened_ledger m.poster_ata m.vault m.task.poster n m.ledger
          m.transferred).1 in
      let at : p.associated_token m.task_key mint ≡ m.vault =
        ap (p.associated_token m.task_key) (sym pin) ∙ m.vault_at in
      let (owned, enough) =
        funded_vault w.ledger m.opened_ledger m.ledger m.poster_ata m.vault n m.config.usdc_mint
          m.task_key m.task.poster (rw m.vault_at at e1) e2 m.poster_owned ne in
      let due : unsettled m.task ≡ m.task.max_slots = omega (arith, m.fresh) in
      rw (at, due) (owned, enough)

  pub Funded-Custody :
      {env : Env} {w w' : World}
      → WalletsSign p env w
      → Custody p mint w
      → Funded p env w w'
      → Custody p mint w'
  Funded-Custody {w} sign c m =
      let poster_key = m.task.poster in
      let wallet = sign poster_key m.signed in
      let s1 =
        create-Spends laws w.ledger m.task_key m.config.usdc_mint m.opened_ledger poster_key
          m.vault_opened in
      let s2 =
        transfer-Spends laws m.opened_ledger m.poster_ata m.vault poster_key
          (m.task.bounty * m.task.max_slots) m.ledger poster_key m.poster_owned m.transferred in
      let covered =
        Funded-Covered m (c.pinned m.config_key m.config m.config_at)
          (λ e. wallet.underived (task_seeds m.task.task_id) (m.derived ∙ sym e)) in
      rw m.written (
        once-Custody p mint w m.task_key (task_account m.task) m.ledger poster_key c
          (λ d h. absurd (unused_config w m.task_key d m.unused h)) (λ d h. cc)
          (Spends-then s1 s2).keeps (λ k t h ne. not_wallet w k t poster_key h wallet.no_account)
          (λ t h op. rw (← task_case m.task t h) covered))

  pub Drained_closed-Custody :
      {env : Env} {w : World}
      → Custody p mint w
      → (d : Drained p env w)
      → Custody p mint (
          store d.task_key
            (task_account (set_task_status closed_task d.task))
            (record w { ledger = d.ledger }))
  Drained_closed-Custody {w} c d =
      once-Custody p mint w d.task_key (task_account (set_task_status closed_task d.task)) d.ledger
        d.task_key c (λ x h. absurd (other_kind w d.task_key d.task x d.task_at h)) (λ x h. cc)
        (VaultEmptied-keeps laws w.ledger d.task_key d.vault d.poster_ata d.ledger d.vault_owned
          d.emptied)
        (λ k t h ne. ne) (λ t h op. closed_not_open d.task t h op)
    where
      closed_not_open :
          (t u : EscrowTask) {A : Type 0}
          → task_account u ≡ task_account (set_task_status closed_task t)
          → task_status u ≡ open_task
          → A
      closed_not_open t u h op =
          ground
            (arith, task_case (set_task_status closed_task t) u h, task_status-set closed_task t)

  pub Drained_withdrawn-Custody :
      {env : Env} {w : World}
      → Custody p mint w
      → (d : Drained p env w)
      → Custody p mint (record w { accounts = erase d.task_key w.accounts; ledger = d.ledger })
  Drained_withdrawn-Custody {w} c d = record {
    configured =
        let (x, there) = c.configured in
        (x, config_stays x (p.find_program_address config_seeds).0 there);
    pinned = λ k x h. ground (arith, c.pinned k x, lookup-erase d.task_key k w.accounts);
    covered = λ k t h op.
        let (old, ne) = erased k t h in
        Covered-others p mint d.task_key k t w.ledger d.ledger
          (VaultEmptied-keeps laws w.ledger d.task_key d.vault d.poster_ata d.ledger d.vault_owned
            d.emptied)
          ne (c.covered k t old op);
  }
    where
      config_stays :
          (x : EscrowConfig) (k : Pubkey)
          → ConfigAt w k x
          → lookup k (erase d.task_key w.accounts) ≡ some (config_account x)
      config_stays x k h =
          ground (arith, lookup-erase d.task_key k w.accounts, other_kind w k d.task x)

      erased :
          (k : Pubkey) (t : EscrowTask)
          → lookup k (erase d.task_key w.accounts) ≡ some (task_account t)
          → TaskAt w k t × (k ≢ d.task_key)
      erased k t h = ground (arith, lookup-erase d.task_key k w.accounts)
