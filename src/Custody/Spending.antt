-- ===== src/Custody/Spending.antt =====
-- What a transfer leaves of the token accounts, seen from their owners.
use clustly_solana_escrow.Base.{ℕ, ◌+◌, ◌≤◌, ◌≡◌, ◌≢◌, inl, inr, none, arith}
use clustly_solana_escrow.Error.{ok}
use clustly_solana_escrow.State.{Pubkey, EscrowConfig, EscrowTask, EscrowClaim}
use clustly_solana_escrow.Platform.{TokenAccount, Ledger, Platform, balance_of}
use clustly_solana_escrow.Platform.Laws.{Laws, moved, removed, opened, empty_token}
use clustly_solana_escrow.Payout.{PayoutKeys}
use clustly_solana_escrow.Promise.Terms.{
  Transferred, PaidOut, VaultEmptied, AccountReady, missing, present,
}
use clustly_solana_escrow.World.{World}
use clustly_solana_escrow.Contract.Reasons.{IsOwned}

-- The accounts of every owner but one are kept, and hold no less.
abbrev pub KeepsOthers : Pubkey → Ledger → Ledger → Type 0
KeepsOthers o l l' =
    (x q : Pubkey)
    → IsOwned (l x) q
    → q ≢ o
    → IsOwned (l' x) q × (balance_of (l x) ≤ balance_of (l' x))

-- The owner gives away at most `n`.
pub record Spends (o : Pubkey) (n : ℕ) (l l' : Ledger) : Type 0 where
  pub keeps : KeepsOthers o l l'
  pub owners : (x q : Pubkey) → IsOwned (l x) q → IsOwned (l' x) q
  pub bounded : (x : Pubkey) → balance_of (l x) ≤ balance_of (l' x) + n

pub Spends-none : (o : Pubkey) (l : Ledger) → Spends o 0 l l
Spends-none o l = record {
  keeps = λ x q h ne. (h, omega arith);
  owners = λ x q h. h;
  bounded = λ x. omega arith;
}

pub Spends-then :
    {o : Pubkey} {n m : ℕ} {l l' l'' : Ledger}
    → Spends o n l l'
    → Spends o m l' l''
    → Spends o (n + m) l l''
Spends-then s t = record {
  keeps = λ x q h ne.
      let (h', le) = s.keeps x q h ne in let (h'', le') = t.keeps x q h' ne in (h'', omega arith);
  owners = λ x q h. t.owners x q (s.owners x q h);
  bounded = λ x. omega (arith, s.bounded x, t.bounded x);
}

moved-IsOwned :
    (l : Ledger) (from to : Pubkey) (n : ℕ) (x q : Pubkey)
    → IsOwned (l x) q
    → IsOwned (moved l from to n x) q
unfolding moved
moved-IsOwned l from to n x q h = ground arith

moved-le :
    (l : Ledger) (from to : Pubkey) (n : ℕ) (x : Pubkey)
    → balance_of (l x) ≤ balance_of (moved l from to n x) + n
unfolding moved
moved-le l from to n x = ground arith

moved-keeps :
    (l : Ledger) (from to : Pubkey) (n : ℕ) (o x q : Pubkey)
    → IsOwned (l from) o
    → IsOwned (l x) q
    → q ≢ o
    → balance_of (l x) ≤ balance_of (moved l from to n x)
unfolding moved
moved-keeps l from to n o x q s h ne = ground arith

pub moved-Spends :
    (l : Ledger) (from to : Pubkey) (n : ℕ) (o : Pubkey)
    → IsOwned (l from) o
    → Spends o n l (moved l from to n)
moved-Spends l from to n o s = record {
  keeps = λ x q h ne. (moved-IsOwned l from to n x q h, moved-keeps l from to n o x q s h ne);
  owners = λ x q h. moved-IsOwned l from to n x q h;
  bounded = λ x. moved-le l from to n x;
}

opened-IsOwned :
    (l : Ledger) (a : Pubkey) (v : TokenAccount) (x q : Pubkey)
    → l a ≡ none
    → IsOwned (l x) q
    → IsOwned (opened l a v x) q
unfolding opened
opened-IsOwned l a v x q free h = ground arith

opened-le :
    (l : Ledger) (a : Pubkey) (v : TokenAccount) (x : Pubkey)
    → l a ≡ none
    → balance_of (l x) ≤ balance_of (opened l a v x)
unfolding opened
opened-le l a v x free = ground arith

opened-Spends :
    (l : Ledger) (a : Pubkey) (v : TokenAccount) (o : Pubkey)
    → l a ≡ none
    → Spends o 0 l (opened l a v)
opened-Spends l a v o free = record {
  keeps = λ x q h ne. (opened-IsOwned l a v x q free h, opened-le l a v x free);
  owners = λ x q h. opened-IsOwned l a v x q free h;
  bounded = λ x. omega (arith, opened-le l a v x free);
}

module _ {p : Platform} (laws : Laws p) where
  -- A transfer out of an account spends at its owner's cost alone.
  pub transfer-Spends :
      (l : Ledger) (from to authority : Pubkey) (n : ℕ) (l' : Ledger) (o : Pubkey)
      → IsOwned (l from) o
      → p.transfer l from to authority n ≡ ok l'
      → Spends o n l l'
  transfer-Spends l from to authority n l' o s h =
      rw (laws.transfer_sound l from to authority n l' h).1 (moved-Spends l from to n o s)

  -- A transfer that is made only if there is something to transfer.
  Transferred-Spends :
      (l : Ledger) (from to authority : Pubkey) (n : ℕ) (l' : Ledger) (o : Pubkey)
      → IsOwned (l from) o
      → Transferred p l from to authority n l'
      → Spends o n l l'
  Transferred-Spends l from to authority n l' o s (inl (z, e)) = rw (← e, z) (Spends-none o l)
  Transferred-Spends l from to authority n l' o s (inr (positive, h)) =
      transfer-Spends l from to authority n l' o s h

  pub PaidOut-Spends :
      {w w' : World} {a : PayoutKeys} {status : ℕ} {config : EscrowConfig} {task : EscrowTask}
      {claim : EscrowClaim}
      → IsOwned (w.ledger a.task_vault) a.task
      → (m : PaidOut p w w' a status config task claim)
      → Spends a.task task.bounty w.ledger m.ledger
  PaidOut-Spends {w} {a = a} s m =
      let one =
        Transferred-Spends w.ledger a.task_vault a.claimer_ata a.task m.net m.between a.task s
          m.to_claimer in
      rw (← m.whole) (
        Spends-then one (
          Transferred-Spends m.between a.task_vault a.fee_vault a.task m.fee m.ledger a.task
            (one.owners a.task_vault a.task s) m.to_fee_vault))

  removed-keeps :
      (l : Ledger) (vault o : Pubkey) → IsOwned (l vault) o → KeepsOthers o l (removed l vault)
  unfolding removed
  removed-keeps l vault o s x q h ne = (ground arith, ground arith)

  pub VaultEmptied-keeps :
      (l : Ledger) (o vault poster_ata : Pubkey) (l' : Ledger)
      → IsOwned (l vault) o
      → VaultEmptied p l o vault poster_ata l'
      → KeepsOthers o l l'
  VaultEmptied-keeps l o vault poster_ata l' s m x q hx ne =
      let one =
        Transferred-Spends l vault poster_ata o (balance_of (l vault)) m.between o s m.moves in
      let (hx', le) = one.keeps x q hx ne in
      let gone = removed-keeps m.between vault o (one.owners vault o s) x q hx' ne in
      let e = laws.close_sound m.between vault o l' m.closes in
      (rw e gone.0, rw e (omega (arith, gone.1)))

  -- A new, empty account costs nobody anything.
  pub create-Spends :
      (l : Ledger) (authority mint : Pubkey) (l' : Ledger) (o : Pubkey)
      → p.create_associated l authority mint ≡ ok l'
      → Spends o 0 l l'
  create-Spends l authority mint l' o h =
      let (free, e) = laws.create_sound l authority mint l' h in
      rw e (opened-Spends l (p.associated_token authority mint) (empty_token mint authority) o free)

  pub AccountReady-Spends :
      (l : Ledger) (k mint authority : Pubkey) (l' : Ledger) (o : Pubkey)
      → AccountReady p l k mint authority l'
      → Spends o 0 l l'
  AccountReady-Spends l k mint authority l' o (missing free created) =
      create-Spends l authority mint l' o created
  AccountReady-Spends l k mint authority l' o (present there same) = rw (← same) (Spends-none o l)
