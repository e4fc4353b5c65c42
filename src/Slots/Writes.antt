-- ===== src/Slots/Writes.antt =====
-- What the writes of an instruction do to the count of active claims.
use clustly_solana_escrow.Base.{◌+◌, ◌≡◌, ◌≢◌, some, ◌==◌, if◌then◌else◌, arith}
use clustly_solana_escrow.Base.Dict.{
  Dict, lookup, insert, lookup-insert, weight_of, total, total-insert,
}
use clustly_solana_escrow.State.{Pubkey, EscrowTask, EscrowClaim}
use clustly_solana_escrow.World.{Account, task_account, claim_account}
use clustly_solana_escrow.Slots.Defs.{live}

module _ (d : Dict Account) (task_key claim_key : Pubkey) (task task' : EscrowTask)
    (claim' : EscrowClaim) where
  -- The accounts after a task and then a claim of it have been written.
  abbrev after : Dict Account
  after = insert claim_key (claim_account claim') (insert task_key (task_account task') d)

  pub lookup-after :
      (k : Pubkey)
      → lookup k after ≡ (
          if claim_key == k
          then some (claim_account claim')
          else if task_key == k
          then some (task_account task')
          else lookup k d)
  lookup-after k =
      rw (lookup-insert claim_key k (claim_account claim') (insert task_key (task_account task') d))
        (rw (lookup-insert task_key k (task_account task') d))

  pub total-after :
      (k : Pubkey)
      → lookup task_key d ≡ some (task_account task)
      → task_key ≢ claim_key
      → total (live k) after + weight_of (live k) (lookup claim_key d)
        ≡ total (live k) d + live k (claim_account claim')
  unfolding live
  total-after k at ne = ground (
    arith,
    total-insert (live k) claim_key (claim_account claim') (insert task_key (task_account task') d),
    total-insert (live k) task_key (task_account task') d,
    lookup-insert task_key claim_key (task_account task') d,
  )
