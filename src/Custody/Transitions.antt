-- ===== src/Custody/Transitions.antt =====
-- Custody under the single transitions of the contract.
use clustly_solana_escrow.Base.{ℕ, zero, suc, ◌+◌, ◌-◌, ◌*◌, ◌≤◌, ◌≡◌, ◌≢◌, refl, ◌∙◌, arith}
use clustly_solana_escrow.State.{
  Pubkey, EscrowConfig, EscrowTask, EscrowClaim, task_status, set_claim_status, open_task,
}
use clustly_solana_escrow.Platform.{Ledger, Platform, balance_of}
use clustly_solana_escrow.Platform.Laws.{Laws}
use clustly_solana_escrow.World.{World, Env, config_account, claim_account}
use clustly_solana_escrow.Contract.Reasons.{ConfigAt, TaskAt, ClaimAt}
use clustly_solana_escrow.Contract.Claims.{Paid, Refunded, ClaimMoved, SlotTaken}
use clustly_solana_escrow.Contract.Tasks.{FeesTaken, Reconfigured}
use clustly_solana_escrow.Custody.Spending.{
  Spends, Spends-none, transfer-Spends, PaidOut-Spends, AccountReady-Spends,
}
use clustly_solana_escrow.Custody.Defs.{unsettled, Covered, Custody, Covered-others}
use clustly_solana_escrow.Custody.Writes.{written-Custody, once-Custody}

-- A task after one more settlement: what it owes falls by the bounty.
spend_one : (b n x y : ℕ) → b * n ≤ x → x ≤ y + b → b * (n - 1) ≤ y
spend_one b zero x y h g = grind arith
spend_one b (suc n) x y h g = grind arith

module _ {p : Platform} (laws : Laws p) (mint : Pubkey) where
  settle-Covered :
      (k : Pubkey) (t t' : EscrowTask) (l l' : Ledger)
      → Spends k t.bounty l l'
      → t'.bounty ≡ t.bounty
      → unsettled t' ≡ unsettled t - 1
      → Covered p mint l k t
      → Covered p mint l' k t'
  settle-Covered k t t' l l' s b u (owned, enough) = (
    s.owners (p.associated_token k mint) k owned,
    rw (b, u)
        (spend_one t.bounty (unsettled t) (balance_of (l (p.associated_token k mint)))
          (balance_of (l' (p.associated_token k mint))) enough
          (s.bounded (p.associated_token k mint))),
  )

  still_open :
      (t : EscrowTask) (a r : ℕ)
      → task_status (record t { slots_approved = a; slots_refunded = r }) ≡ open_task
      → task_status t ≡ open_task
  unfolding task_status
  still_open t a r h = h

  pub Paid-Custody :
      {env : Env} {w w' : World} → Custody p mint w → Paid p env w w' → Custody p mint w'
  Paid-Custody {w} c m =
      let f = m.facts in
      let a = m.keys in
      let t = m.task in
      let t' : EscrowTask = record t { slots_approved = t.slots_approved + 1 } in
      let s : Spends a.task t.bounty w.ledger m.settled.ledger =
        PaidOut-Spends laws f.vault_is.0 m.settled in
      rw m.settled.written (
        written-Custody p mint w a.task a.claim t t' (set_claim_status m.final m.claim)
          m.settled.ledger c f.task_is.0 (rw f.claim_is.0 f.belongs) s.keeps
          (λ op. settle-Covered a.task t t' w.ledger m.settled.ledger s refl (omega arith) (
            c.covered a.task t f.task_is.0
              (still_open t (t.slots_approved + 1) t.slots_refunded op))))

  pub Refunded-Custody :
      {env : Env} {w w' : World} → Custody p mint w → Refunded p env w w' → Custody p mint w'
  Refunded-Custody {w} c m =
      let t = m.task in
      let t' : EscrowTask = record t { slots_refunded = t.slots_refunded + 1 } in
      let s =
        transfer-Spends laws w.ledger m.vault m.poster_ata m.task_key t.bounty m.ledger m.task_key
          m.vault_owned m.transferred in
      rw m.written (
        written-Custody p mint w m.task_key m.claim_key t t' m.claim' m.ledger c m.task_at
          (rw m.claim_at m.belongs) s.keeps
          (λ op. settle-Covered m.task_key t t' w.ledger m.ledger s refl (omega arith) (
            c.covered m.task_key t m.task_at
              (still_open t t.slots_approved (t.slots_refunded + 1) op))))

  pub SlotTaken-Custody :
      {env : Env} {w w' : World} → Custody p mint w → SlotTaken p env w w' → Custody p mint w'
  SlotTaken-Custody {w} c m =
      let t = m.task in
      let t' : EscrowTask = record t { slots_enrolled = t.slots_enrolled + 1 } in
      let s =
        AccountReady-Spends laws w.ledger m.ata m.mint m.claim.claimer m.ledger m.task_key
          m.account_ready in
      rw m.written (
        written-Custody p mint w m.task_key m.claim_key t t' m.claim m.ledger c m.task_at
          (rw m.unused tt) s.keeps
          (λ op.
            let (owned, enough) = c.covered m.task_key t m.task_at m.is_open_task in
            (
              s.owners (p.associated_token m.task_key mint) m.task_key owned,
              omega (arith, enough, s.bounded (p.associated_token m.task_key mint)),
            )))

  no_claim :
      (w : World) (k : Pubkey) (c : EscrowClaim) (d : EscrowConfig)
      → ClaimAt w k c
      → ConfigAt w k d
      → ⊥
  no_claim w k c d h g = ground arith

  pub ClaimMoved-Custody :
      {env : Env} {w w' : World} → Custody p mint w → ClaimMoved env w w' → Custody p mint w'
  ClaimMoved-Custody {w} c m = rw m.written (
      once-Custody p mint w m.claim_key (claim_account m.claim') w.ledger m.claim_key c
        (λ d h. absurd (no_claim w m.claim_key m.claim d m.claim_at h)) (λ d h. cc)
        (Spends-none m.claim_key w.ledger).keeps (λ k t h ne. ne) (λ t h op. cc))

  -- A task and the configuration stand under different keys.
  config_apart :
      (w : World) (j k : Pubkey) (d : EscrowConfig) (t : EscrowTask)
      → ConfigAt w j d
      → TaskAt w k t
      → k ≢ j
  config_apart w j k d t at ht same = ground arith

  config_case :
      (c d : EscrowConfig) → config_account d ≡ config_account c → d.usdc_mint ≡ c.usdc_mint
  config_case c d h = ground arith

  pub Reconfigured-Custody :
      {env : Env} {w w' : World} → Custody p mint w → Reconfigured env w w' → Custody p mint w'
  Reconfigured-Custody {w} c m = rw m.written (
      once-Custody p mint w m.config_key (config_account m.config') w.ledger m.config_key c
        (λ d h. (m.config', refl))
        (λ d h.
          config_case m.config' d h ∙ m.same_mint ∙ c.pinned m.config_key m.config m.config_at)
        (Spends-none m.config_key w.ledger).keeps (λ k t h ne. ne) (λ t h op. cc))

  pub FeesTaken-Custody :
      {env : Env} {w w' : World} → Custody p mint w → FeesTaken p env w w' → Custody p mint w'
  FeesTaken-Custody {w} c m =
      let s =
        transfer-Spends laws w.ledger m.fee_vault m.destination m.config_key m.amount m.ledger
          m.config_key m.fee_owned m.transferred in
      rw m.written (record {
        configured = c.configured;
        pinned = c.pinned;
        covered = λ k t h op.
            Covered-others p mint m.config_key k t w.ledger m.ledger s.keeps
              (config_apart w m.config_key k m.config t m.config_at h) (c.covered k t h op);
      })
