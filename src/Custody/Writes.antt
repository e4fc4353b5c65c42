-- ===== src/Custody/Writes.antt =====
-- Custody under the writes of an instruction.
use clustly_solana_escrow.Base.{◌≡◌, ◌≢◌, inl, inr, true, false, ◌==◌, arith, Bool-cases}
use clustly_solana_escrow.Base.Dict.{lookup, lookup-insert}
use clustly_solana_escrow.State.{
  Pubkey, EscrowConfig, EscrowTask, EscrowClaim, task_status, open_task,
}
use clustly_solana_escrow.Platform.{Ledger, Platform}
use clustly_solana_escrow.World.{World, Account, config_account, task_account, config_seeds, store}
use clustly_solana_escrow.Contract.Reasons.{ConfigAt, TaskAt}
use clustly_solana_escrow.Custody.Spending.{KeepsOthers}
use clustly_solana_escrow.Slots.Settle.{Earlier, written}
use clustly_solana_escrow.Slots.Writes.{lookup-after}
use clustly_solana_escrow.Custody.Defs.{Covered, Custody, Covered-others}

module _ (p : Platform) (mint : Pubkey) (w : World) (task_key claim_key : Pubkey)
    (task task' : EscrowTask) (claim' : EscrowClaim) (ledger : Ledger) where
  abbrev after : World
  after = written w task_key claim_key task task' claim' ledger

  -- A task and a claim of it are written, and tokens leave the task's accounts alone.
  pub written-Custody :
      Custody p mint w
      → TaskAt w task_key task
      → Earlier task_key (lookup claim_key w.accounts)
      → KeepsOthers task_key w.ledger ledger
      → (task_status task' ≡ open_task → Covered p mint ledger task_key task')
      → Custody p mint after
  written-Custody c at e keeps here = record {
    configured =
        let (d, here) = c.configured in
        (d, config_stays d (p.find_program_address config_seeds).0 here);
    pinned = λ k d h.
        ground
          (arith, c.pinned k d, lookup-after w.accounts task_key claim_key task task' claim' k);
    covered = λ k t h op. elim (Bool-cases (task_key == k)) [
      | inl same ↦ let (t_eq, k_eq) = at_task k t same h in rw k_eq (rw t_eq (here (rw t_eq at op)))
      | inr other ↦
          let (old, ne) = elsewhere k t other h in
          Covered-others p mint task_key k t w.ledger ledger keeps ne (c.covered k t old op)
    ];
  }
    where
      config_stays : (d : EscrowConfig) (k : Pubkey) → ConfigAt w k d → ConfigAt after k d
      config_stays d k h =
          ground (arith, at, e, lookup-after w.accounts task_key claim_key task task' claim' k)

      at_task :
          (k : Pubkey) (t : EscrowTask)
          → (task_key == k) ≡ true
          → TaskAt after k t
          → (t ≡ task') × (k ≡ task_key)
      at_task k t same h =
          ground (arith, at, e, lookup-after w.accounts task_key claim_key task task' claim' k)

      elsewhere :
          (k : Pubkey) (t : EscrowTask)
          → (task_key == k) ≡ false
          → TaskAt after k t
          → TaskAt w k t × (k ≢ task_key)
      elsewhere k t other h =
          ground (arith, lookup-after w.accounts task_key claim_key task task' claim' k)

module _ (p : Platform) (mint : Pubkey) (w : World) (j : Pubkey) (a : Account) (ledger : Ledger)
    (o : Pubkey) where
  -- One account is written, and tokens leave the accounts of one owner, who is no task or whose
  -- task is the one written.
  pub once-Custody :
      Custody p mint w
      → ((c : EscrowConfig) → ConfigAt w j c → (c' : EscrowConfig) × (a ≡ config_account c'))
      → ((c : EscrowConfig) → config_account c ≡ a → c.usdc_mint ≡ mint)
      → KeepsOthers o w.ledger ledger
      → ((k : Pubkey) (t : EscrowTask) → TaskAt w k t → k ≢ j → k ≢ o)
      → ((t : EscrowTask)
          → task_account t ≡ a
          → task_status t ≡ open_task
          → Covered p mint ledger j t)
      → Custody p mint (store j a (record w { ledger = ledger }))
  once-Custody c stay pin keeps apart here = record {
    configured =
        let (d, there) = c.configured in
        config_stays d (p.find_program_address config_seeds).0 there;
    pinned = λ k d h. ground (arith, pin d, c.pinned k d, lookup-insert j k a w.accounts);
    covered = λ k t h op. elim (Bool-cases (j == k)) [
      | inl same ↦ let (t_eq, k_eq) = at_written k t same h in rw k_eq (here t t_eq op)
      | inr other ↦
          let (old, ne) = elsewhere k t other h in
          Covered-others p mint o k t w.ledger ledger keeps (apart k t old ne)
            (c.covered k t old op)
    ];
  }
    where
      config_stays :
          (d : EscrowConfig) (k : Pubkey)
          → ConfigAt w k d
          → (d' : EscrowConfig) × ConfigAt (store j a (record w { ledger = ledger })) k d'
      config_stays d k h = elim (Bool-cases (j == k)) [
        | inl same ↦
            let (d', e) = stay d (rw (jk same) h) in
            (d', ground (arith, e, lookup-insert j k a w.accounts))
        | inr other ↦ (d, ground (arith, lookup-insert j k a w.accounts))
      ]
        where
          jk : (j == k) ≡ true → j ≡ k
          jk e = ground arith

      at_written :
          (k : Pubkey) (t : EscrowTask)
          → (j == k) ≡ true
          → TaskAt (store j a (record w { ledger = ledger })) k t
          → (task_account t ≡ a) × (k ≡ j)
      at_written k t same h = ground (arith, lookup-insert j k a w.accounts)

      elsewhere :
          (k : Pubkey) (t : EscrowTask)
          → (j == k) ≡ false
          → TaskAt (store j a (record w { ledger = ledger })) k t
          → TaskAt w k t × (k ≢ j)
      elsewhere k t other h = ground (arith, lookup-insert j k a w.accounts)
