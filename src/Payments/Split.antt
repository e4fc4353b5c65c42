-- ===== src/Payments/Split.antt =====
-- The two transfers of a payout (claim.rs, dispute.rs), account by account.
use clustly_solana_escrow.Base.{ℕ, ◌+◌, ◌≤◌, ◌≡◌, ◌≢◌, inl, inr, refl, sym, arith}
use clustly_solana_escrow.State.{Pubkey, EscrowConfig, EscrowTask, EscrowClaim}
use clustly_solana_escrow.Platform.{Ledger, Platform, balance_of}
use clustly_solana_escrow.Platform.Laws.{Laws, moved, Transferable}
use clustly_solana_escrow.World.{World}
use clustly_solana_escrow.Payout.{PayoutKeys}
use clustly_solana_escrow.Promise.Terms.{Transferred, PaidOut}
use clustly_solana_escrow.Contract.Reasons.{IsOwned}

-- The ledger after a transfer that is made only if there is something to transfer.
record Sent (l l' : Ledger) (from to : Pubkey) (n : ℕ) : Type 0 where
  covered : n ≤ balance_of (l from)
  moves : (k : Pubkey) → balance_of (l' k) ≡ balance_of (moved l from to n k)
  owners : (k q : Pubkey) → IsOwned (l k) q → IsOwned (l' k) q

moved-owners :
    (l : Ledger) (from to : Pubkey) (n : ℕ) (k q : Pubkey)
    → IsOwned (l k) q
    → IsOwned (moved l from to n k) q
unfolding moved
moved-owners l from to n k q h = ground arith

moved-zero : (l : Ledger) (from to k : Pubkey) → balance_of (l k) ≡ balance_of (moved l from to 0 k)
unfolding moved
moved-zero l from to k = ground arith

covered_balance :
    (l : Ledger) (from to : Pubkey) (n : ℕ) → Transferable l from to n → n ≤ balance_of (l from)
covered_balance l from to n t = rw t.source_at t.covered

module _ {p : Platform} (laws : Laws p) where
  Transferred-Sent :
      (l : Ledger) (from to authority : Pubkey) (n : ℕ) (l' : Ledger)
      → Transferred p l from to authority n l'
      → Sent l l' from to n
  Transferred-Sent l from to authority n l' (inl (z, e)) =
      rw (← e, z)
        (record { covered = omega arith; moves = λ k. moved-zero l from to k; owners = λ k q g. g })
  Transferred-Sent l from to authority n l' (inr (positive, h)) =
      let (t, e) = laws.transfer_sound l from to authority n l' h in
      rw e (record {
        covered = covered_balance l from to n t;
        moves = λ k. refl;
        owners = λ k q g. moved-owners l from to n k q g;
      })

pub record SplitAmounts (l l' : Ledger) (a : PayoutKeys) (net fee : ℕ) : Type 0 where
  pub from_vault : balance_of (l' a.task_vault) + net + fee ≡ balance_of (l a.task_vault)
  pub to_claimer : balance_of (l' a.claimer_ata) ≡ balance_of (l a.claimer_ata) + net
  pub to_fee_vault : balance_of (l' a.fee_vault) ≡ balance_of (l a.fee_vault) + fee

owned_apart : (l : Ledger) (j k q r : Pubkey) → IsOwned (l j) q → IsOwned (l k) r → q ≢ r → j ≢ k
owned_apart l j k q r h g ne e = ground arith

module _ (l l1 l2 : Ledger) (v c f : Pubkey) (net fee : ℕ) where
  amounts :
      Sent l l1 v c net
      → Sent l1 l2 v f fee
      → (q : Pubkey) → IsOwned (l c) q
      → (r : Pubkey) → IsOwned (l f) r
      → v ≢ c
      → v ≢ f
      → c ≢ f
      → (balance_of (l2 v) + net + fee ≡ balance_of (l v))
        × (balance_of (l2 c) ≡ balance_of (l c) + net)
        × (balance_of (l2 f) ≡ balance_of (l f) + fee)
  unfolding moved
  amounts s t q oc r of vc vf cf = (
    ground (arith, s.covered, t.covered, s.moves v, t.moves v),
    ground (arith, s.moves c, t.moves c),
    ground (arith, s.moves f, t.moves f, s.owners f r of),
  )

-- The vault gives both parts, the claimer's account gains the one and the fee vault the other,
-- where the three owners differ.
pub PaidOut-SplitAmounts :
    {p : Platform} (laws : Laws p) {w w' : World} {a : PayoutKeys} {status : ℕ}
    {config : EscrowConfig} {task : EscrowTask} {claim : EscrowClaim}
    → IsOwned (w.ledger a.task_vault) a.task
    → IsOwned (w.ledger a.claimer_ata) a.claimer
    → IsOwned (w.ledger a.fee_vault) a.config
    → a.claimer ≢ a.task
    → a.claimer ≢ a.config
    → a.task ≢ a.config
    → (m : PaidOut p w w' a status config task claim) → SplitAmounts w.ledger m.ledger a m.net m.fee
PaidOut-SplitAmounts laws {w = w} {a = a} ov oc of ct cf tf m =
    let l = w.ledger in
    let (x, y, z) =
      amounts l m.between m.ledger a.task_vault a.claimer_ata a.fee_vault m.net m.fee
        (Transferred-Sent laws l a.task_vault a.claimer_ata a.task m.net m.between m.to_claimer)
        (Transferred-Sent laws m.between a.task_vault a.fee_vault a.task m.fee m.ledger
          m.to_fee_vault)
        a.claimer oc a.config of
        (owned_apart l a.task_vault a.claimer_ata a.task a.claimer ov oc (λ e. ct (sym e)))
        (owned_apart l a.task_vault a.fee_vault a.task a.config ov of tf)
        (owned_apart l a.claimer_ata a.fee_vault a.claimer a.config oc of cf) in
    record { from_vault = x; to_claimer = y; to_fee_vault = z }
