-- ===== src/Payments/Progress.antt =====
-- When the payout of claim.rs and dispute.rs (`pay_deliverer`) succeeds.
use clustly_solana_escrow.Base.{
  ℕ, ◌+◌, ◌-◌, ◌*◌, ◌/◌, ◌^◌, ◌≤◌, ◌<◌, ◌≡◌, ◌≢◌, inl, inr, refl, sym, ◌∙◌, true, false, some, ltb,
  if◌then◌else◌, arith, Bool-cases,
}
use clustly_solana_escrow.Error.{ok}
use clustly_solana_escrow.State.{
  Pubkey, EscrowConfig, EscrowTask, EscrowClaim, ClaimStatus, set_claim_status, bps_denominator,
  checked_inc,
}
use clustly_solana_escrow.State.Fee.{compute_fee_split_lem}
use clustly_solana_escrow.Platform.{TokenAccount, Ledger, Platform}
use clustly_solana_escrow.Platform.Laws.{Laws, moved}
use clustly_solana_escrow.World.{World, store, claim_account, task_account}
use clustly_solana_escrow.Payout.{PayoutKeys, pay_split, pay_deliverer}

moved-source :
    (l : Ledger) (from to : Pubkey) (n : ℕ) (v : TokenAccount)
    → l from ≡ some v
    → from ≢ to
    → moved l from to n from ≡ some (record v { amount = v.amount - n })
unfolding moved
moved-source l from to n v e ne = ground arith

moved-other :
    (l : Ledger) (from to : Pubkey) (n : ℕ) (k : Pubkey)
    → k ≢ from
    → k ≢ to
    → moved l from to n k ≡ l k
unfolding moved
moved-other l from to n k nf nt = ground arith

spend-none : (v : TokenAccount) (n : ℕ) → n ≡ 0 → some v ≡ some (record v { amount = v.amount - n })
spend-none v n z = let e : v.amount - n ≡ v.amount = omega arith in rw e refl

-- A transfer that is made only if there is something to transfer, and the ledger after it.
record Sends (p : Platform) (l : Ledger) (from to authority : Pubkey) (n : ℕ) (v : TokenAccount)
    : Type 0 where
  ledger : Ledger
  sent : (if ltb 0 n then p.transfer l from to authority n else ok l) ≡ ok ledger
  source : ledger from ≡ some (record v { amount = v.amount - n })
  others : (k : Pubkey) → k ≢ from → k ≢ to → ledger k ≡ l k

transfer_if-Sends :
    {p : Platform} (laws : Laws p) (l : Ledger) (from to authority : Pubkey) (n : ℕ)
    (v c : TokenAccount)
    → l from ≡ some v
    → l to ≡ some c
    → from ≢ to
    → v.owner ≡ authority
    → v.mint ≡ c.mint
    → v.frozen ≡ false
    → c.frozen ≡ false
    → n ≤ v.amount
    → c.amount + n < 2 ^ 64
    → Sends p l from to authority n v
transfer_if-Sends {p} laws l from to authority n v c ev ec ne own mint fv fc le fits =
    elim (Bool-cases (ltb 0 n)) [
      | inl positive ↦ record {
        ledger = moved l from to n;
        sent =
            rw positive
              (laws.transfer_complete l from to authority n v c ev ec own mint fv fc le fits);
        source = moved-source l from to n v ev ne;
        others = λ k nf nt. moved-other l from to n k nf nt;
      }
      | inr nothing ↦ record {
        ledger = l;
        sent = rw nothing refl;
        source = let z : n ≡ 0 = ground arith in ev ∙ spend-none v n z;
        others = λ k nf nt. refl;
      }
    ]

module _ {p : Platform} (laws : Laws p) (w : World) (a : PayoutKeys) (v c f : TokenAccount) where
  pay_split_succeeds :
      (net fee : ℕ)
      → w.ledger a.task_vault ≡ some v
      → w.ledger a.claimer_ata ≡ some c
      → w.ledger a.fee_vault ≡ some f
      → a.task_vault ≢ a.claimer_ata
      → a.task_vault ≢ a.fee_vault
      → a.claimer_ata ≢ a.fee_vault
      → v.owner ≡ a.task
      → v.mint ≡ c.mint
      → v.mint ≡ f.mint
      → v.frozen ≡ false
      → c.frozen ≡ false
      → f.frozen ≡ false
      → net + fee ≤ v.amount
      → c.amount + net < 2 ^ 64
      → f.amount + fee < 2 ^ 64
      → (l' : Ledger) × (pay_split p w.ledger a net fee ≡ ok l')
  unfolding pay_split
  pay_split_succeeds net fee ev ec ef vc vf cf own mc mf fv fc ff enough cfits ffits =
      let s =
        transfer_if-Sends laws w.ledger a.task_vault a.claimer_ata a.task net v c ev ec vc own mc fv
          fc (omega arith) cfits in
      let fee_there : s.ledger a.fee_vault ≡ some f =
        rw (s.others a.fee_vault (λ e. vf (sym e)) (λ e. cf (sym e))) ef in
      let t =
        transfer_if-Sends laws s.ledger a.task_vault a.fee_vault a.task fee
          (record v { amount = v.amount - net }) f s.source fee_there vf own mf fv ff (omega arith)
          ffits in
      (t.ledger, rw s.sent t.sent)

  -- A payout succeeds if the three token accounts exist, are different ones, are of one mint and
  -- not frozen, the task owns its vault and the vault holds the bounty, the receiving accounts
  -- have room for it, the rate is at most 100 % and the counter of approvals is not at its limit. It
  -- writes the claim with the given status, and the task with one more approval.
  pub pay_deliverer_succeeds :
      (final : ClaimStatus) (config : EscrowConfig) (task : EscrowTask) (claim : EscrowClaim)
      → w.ledger a.task_vault ≡ some v
      → w.ledger a.claimer_ata ≡ some c
      → w.ledger a.fee_vault ≡ some f
      → a.task_vault ≢ a.claimer_ata
      → a.task_vault ≢ a.fee_vault
      → a.claimer_ata ≢ a.fee_vault
      → v.owner ≡ a.task
      → v.mint ≡ c.mint
      → v.mint ≡ f.mint
      → v.frozen ≡ false
      → c.frozen ≡ false
      → f.frozen ≡ false
      → task.bounty ≤ v.amount
      → c.amount + task.bounty < 2 ^ 64
      → f.amount + task.bounty < 2 ^ 64
      → config.fee_bps ≤ bps_denominator
      → task.slots_approved + 1 < 2 ^ 16
      → (l' : Ledger) × (pay_deliverer p w a final config task claim
          ≡ ok (
              store a.claim (claim_account (set_claim_status final claim)) (
                store a.task
                  (task_account (record task { slots_approved = task.slots_approved + 1 }))
                  (record w { ledger = l' }))))
  unfolding pay_deliverer checked_inc
  pay_deliverer_succeeds final config task claim ev ec ef vc vf cf own mc mf fv fc ff enough cfits
        ffits rate room =
      let (split, whole) = compute_fee_split_lem task.bounty config.fee_bps (omega arith) rate in
      let fee = task.bounty * config.fee_bps / bps_denominator in
      let (l', paid) =
        pay_split_succeeds (task.bounty - fee) fee ev ec ef vc vf cf own mc mf fv fc ff
          (omega arith) (omega arith) (omega arith) in
      let counted : ltb (task.slots_approved + 1) (2 ^ 16) ≡ true = ground arith in
      (l', rw (split, paid, counted) refl)
