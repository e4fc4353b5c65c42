-- ===== src/Slots/Settle.antt =====
-- The count of active claims where a settlement or an enrolment writes a task and one of its claims.
use clustly_solana_escrow.Base.{
  ◌+◌, ◌≡◌, ◌≢◌, inl, inr, refl, true, Option, none, some, ◌==◌, arith, Bool-cases,
}
use clustly_solana_escrow.Base.Dict.{lookup, insert, weight_of, total, insert-Distinct}
use clustly_solana_escrow.State.{Pubkey, EscrowTask, EscrowClaim}
use clustly_solana_escrow.Platform.{Ledger}
use clustly_solana_escrow.World.{World, Account, config_account, task_account, claim_account, store}
use clustly_solana_escrow.Task.Close.{active_slots}
use clustly_solana_escrow.Contract.Reasons.{TaskAt}
use clustly_solana_escrow.Slots.Defs.{live, counted_slots, TaskIsSound, ClaimIsSound, IsSound}
use clustly_solana_escrow.Slots.Writes.{lookup-after, total-after}

-- The entry under the key of the written claim: absent, or an earlier claim of the same task.
abbrev pub Earlier : Pubkey → Option Account → Type 0
Earlier task_key none = Unit
Earlier task_key (some (claim_account c)) = c.task ≡ task_key
Earlier task_key (some _) = ⊥

-- A claim counts for its own task alone.
weight_elsewhere :
    (k task_key : Pubkey) (o : Option Account)
    → Earlier task_key o
    → k ≢ task_key
    → (weight_of (live k) o ≡ 0) × (counted_slots o ≡ 0)
unfolding live
weight_elsewhere k task_key none e ne = (refl, refl)
weight_elsewhere k task_key (some (claim_account c)) e ne = (ground arith, refl)
weight_elsewhere k task_key (some (task_account c)) e ne = absurd e
weight_elsewhere k task_key (some (config_account c)) e ne = absurd e

module _ (w : World) (task_key claim_key : Pubkey) (task task' : EscrowTask) (claim' : EscrowClaim)
    (ledger : Ledger) where
  abbrev pub written : World
  written =
      store claim_key (claim_account claim')
        (store task_key (task_account task') (record w { ledger = ledger }))

  keys_differ :
      TaskAt w task_key task → Earlier task_key (lookup claim_key w.accounts) → task_key ≢ claim_key
  keys_differ at e same = ground arith

  counted-here :
      IsSound w
      → TaskAt w task_key task
      → Earlier task_key (lookup claim_key w.accounts)
      → claim'.task ≡ task_key
      → active_slots task' + weight_of (live task_key) (lookup claim_key w.accounts)
        ≡ active_slots task + live task_key (claim_account claim')
      → total (live task_key) written.accounts ≡ counted_slots (lookup task_key written.accounts)
  counted-here s at e own balance = ground (
    arith,
    keys_differ at e,
    total-after w.accounts task_key claim_key task task' claim' task_key at (keys_differ at e),
    lookup-after w.accounts task_key claim_key task task' claim' task_key,
    s.counted task_key,
  )

  counted-written :
      IsSound w
      → TaskAt w task_key task
      → Earlier task_key (lookup claim_key w.accounts)
      → claim'.task ≡ task_key
      → active_slots task' + weight_of (live task_key) (lookup claim_key w.accounts)
        ≡ active_slots task + live task_key (claim_account claim')
      → (k : Pubkey) → total (live k) written.accounts ≡ counted_slots (lookup k written.accounts)
  counted-written s at e own balance k = elim (Bool-cases (task_key == k)) [
    | inl here ↦ rw (← same here) (counted-here s at e own balance)
    | inr there ↦
        let (light, zero_slots) =
          weight_elsewhere k task_key (lookup claim_key w.accounts) e (ground arith) in
        ground (
          arith,
          light,
          zero_slots,
          weight_elsewhere k task_key (some (claim_account claim')) own,
          total-after w.accounts task_key claim_key task task' claim' k at (keys_differ at e),
          lookup-after w.accounts task_key claim_key task task' claim' k,
          s.counted k,
        )
  ]
    where
      same : (task_key == k) ≡ true → task_key ≡ k
      same h = ground arith

  -- The chain stays sound if the two written accounts are, and their counts agree.
  pub written-IsSound :
      IsSound w
      → TaskAt w task_key task
      → Earlier task_key (lookup claim_key w.accounts)
      → claim'.task ≡ task_key
      → active_slots task' + weight_of (live task_key) (lookup claim_key w.accounts)
        ≡ active_slots task + live task_key (claim_account claim')
      → TaskIsSound task'
      → ClaimIsSound claim'
      → IsSound written
  written-IsSound s at e own balance ts cs = record {
    distinct =
        insert-Distinct claim_key (claim_account claim')
          (insert task_key (task_account task') w.accounts)
          (insert-Distinct task_key (task_account task') w.accounts s.distinct);
    counted = counted-written s at e own balance;
    tasks = λ k t h.
        ground
          (arith, ts, s.tasks k t, lookup-after w.accounts task_key claim_key task task' claim' k);
    claims = λ k c h.
        ground
          (arith, cs, s.claims k c, lookup-after w.accounts task_key claim_key task task' claim' k);
    configs = λ k c h.
        ground
          (arith, s.configs k c, lookup-after w.accounts task_key claim_key task task' claim' k);
  }
