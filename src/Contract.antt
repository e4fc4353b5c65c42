-- ===== src/Contract.antt =====
-- The kinds of transitions that the instructions make, as the invariants tell them apart. `Refines`
-- sorts the promises of the instructions into them.
pub mod Reasons
pub mod Claims
pub mod Tasks
use clustly_solana_escrow.Base.{◌≡◌}
use clustly_solana_escrow.Base.Dict.{erase}
use clustly_solana_escrow.State.{set_task_status, closed_task}
use clustly_solana_escrow.Platform.{Platform}
use clustly_solana_escrow.World.{World, Env, task_account, store}
use Claims.{Paid, Refunded, ClaimMoved, SlotTaken}
use Tasks.{Funded, Drained, FeesTaken, Configured, Reconfigured, Repinned}

-- What one instruction may do.
pub data Transition (p : Platform) (env : Env) (w w' : World) : Type 0 where
  configured : Configured p w w' → Transition p env w w'
  reconfigured : Reconfigured env w w' → Transition p env w w'
  repinned : Repinned env w w' → Transition p env w w'
  funded : Funded p env w w' → Transition p env w w'
  -- The task goes off the chain.
  withdrawn :
      (d : Drained p env w)
      → d.task.slots_enrolled ≡ 0
      → w' ≡ record w { accounts = erase d.task_key w.accounts; ledger = d.ledger }
      → Transition p env w w'
  -- The task stays, closed.
  closed :
      (d : Drained p env w)
      → w'
        ≡ store d.task_key
            (task_account (set_task_status closed_task d.task))
            (record w { ledger = d.ledger })
      → Transition p env w w'
  slot_taken : SlotTaken p env w w' → Transition p env w w'
  claim_moved : ClaimMoved env w w' → Transition p env w w'
  paid : Paid p env w w' → Transition p env w w'
  refunded : Refunded p env w w' → Transition p env w w'
  fees_taken : FeesTaken p env w w' → Transition p env w w'
