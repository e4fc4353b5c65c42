-- ===== src/Slots.antt =====
-- The bookkeeping of slots over the runs of the program.
pub mod Defs
pub mod Writes
pub mod Settle
pub mod Settlements
pub mod Others
use clustly_solana_escrow.Base.{ℕ, ◌≡◌, [], refl, some, arith}
use clustly_solana_escrow.Base.Dict.{lookup, total}
use clustly_solana_escrow.Platform.{Platform}
use clustly_solana_escrow.World.{World, Env, Account}
use clustly_solana_escrow.Contract.{
  Transition, configured, reconfigured, repinned, funded, withdrawn, closed, slot_taken,
  claim_moved, paid, refunded, fees_taken,
}
use clustly_solana_escrow.Refines.{process-Transition}
use clustly_solana_escrow.System.{Step, executes, others_act, Reach, start, later}
use Defs.{IsSound}
use Settlements.{Paid-IsSound, Refunded-IsSound, SlotTaken-IsSound}
use Others.{
  Configured-IsSound, Reconfigured-IsSound, Repinned-IsSound, Funded-IsSound, ClaimMoved-IsSound,
  FeesTaken-IsSound, Drained_closed-IsSound, Drained_withdrawn-IsSound,
}

-- Every transition of the contract keeps the bookkeeping sound.
pub Transition-IsSound :
    {p : Platform} {env : Env} {w w' : World} → Transition p env w w' → IsSound w → IsSound w'
Transition-IsSound (configured m) s = Configured-IsSound s m
Transition-IsSound (reconfigured m) s = Reconfigured-IsSound s m
Transition-IsSound (repinned m) s = Repinned-IsSound s m
Transition-IsSound (funded m) s = Funded-IsSound s m
Transition-IsSound (withdrawn d idle e) s = rw e (Drained_withdrawn-IsSound s d)
Transition-IsSound (closed d e) s = rw e (Drained_closed-IsSound s d)
Transition-IsSound (slot_taken m) s = SlotTaken-IsSound s m
Transition-IsSound (claim_moved m) s = ClaimMoved-IsSound s m
Transition-IsSound (paid m) s = Paid-IsSound s m
Transition-IsSound (refunded m) s = Refunded-IsSound s m
Transition-IsSound (fees_taken m) s = FeesTaken-IsSound s m

pub Step-IsSound : {p : Platform} {w w' : World} → Step p w w' → IsSound w → IsSound w'
Step-IsSound {p} {w} {w'} (executes env i sign h) s =
    Transition-IsSound (process-Transition p env w w' i h) s
Step-IsSound (others_act l mints h e) s = rw e (record {
  distinct = s.distinct;
  counted = s.counted;
  tasks = s.tasks;
  claims = s.claims;
  configs = s.configs;
})

vacant : (s : World) (k : ℕ) {a : Account} → s.accounts ≡ [] → lookup k s.accounts ≡ some a → ⊥
unfolding lookup
vacant s k e h = ground arith

-- From a chain on which the program has no account yet, the bookkeeping is sound in every state
-- that can be reached by any sequence of instructions that wallets sign and of outside changes to
-- the tokens: for every key the active claims are as many as the task there counts, no task
-- settles more slots than it has enrolled or enrols more than it has, a closed task has settled
-- all that were enrolled, the claims' status bytes are valid and their rejections below the limit
-- while they are active, and the rate is within the cap.
pub Reach-IsSound : {p : Platform} {s w : World} → s.accounts ≡ [] → Reach p s w → IsSound w
unfolding lookup total
Reach-IsSound {s} empty start = record {
  distinct = rw empty tt;
  counted = λ k. rw empty refl;
  tasks = λ k t h. absurd (vacant s k empty h);
  claims = λ k c h. absurd (vacant s k empty h);
  configs = λ k c h. absurd (vacant s k empty h);
}
Reach-IsSound empty (later r st) = Step-IsSound st (Reach-IsSound empty r)
