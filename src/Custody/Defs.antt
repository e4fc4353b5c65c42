-- ===== src/Custody/Defs.antt =====
-- The custody promise of the program to the posters and claimers of open tasks.
use clustly_solana_escrow.Base.{ℕ, ◌-◌, ◌*◌, ◌≤◌, ◌≡◌, ◌≢◌, arith}
use clustly_solana_escrow.State.{Pubkey, EscrowConfig, EscrowTask, task_status, open_task}
use clustly_solana_escrow.Platform.{Ledger, Platform, balance_of}
use clustly_solana_escrow.World.{World, config_seeds}
use clustly_solana_escrow.Contract.Reasons.{IsOwned, ConfigAt, TaskAt}
use clustly_solana_escrow.Custody.Spending.{KeepsOthers}

-- The slots that are neither paid nor refunded.
abbrev pub unsettled : EscrowTask → ℕ
unsettled t = t.max_slots - t.slots_approved - t.slots_refunded

-- The task owns its vault, and what is still due is in it.
abbrev pub Covered : Platform → Pubkey → Ledger → Pubkey → EscrowTask → Type 0
Covered p mint l k t =
    IsOwned (l (p.associated_token k mint)) k
    × (t.bounty * unsettled t ≤ balance_of (l (p.associated_token k mint)))

-- The configuration is there and pins the mint, and every open task is covered.
pub record Custody (p : Platform) (mint : Pubkey) (w : World) : Type 0 where
  pub configured : (c : EscrowConfig) × ConfigAt w (p.find_program_address config_seeds).0 c
  pub pinned : (k : Pubkey) (c : EscrowConfig) → ConfigAt w k c → c.usdc_mint ≡ mint
  pub covered :
      (k : Pubkey) (t : EscrowTask)
      → TaskAt w k t
      → task_status t ≡ open_task
      → Covered p mint w.ledger k t

pub Covered-others :
    (p : Platform) (mint o k : Pubkey) (t : EscrowTask) (l l' : Ledger)
    → KeepsOthers o l l'
    → k ≢ o
    → Covered p mint l k t
    → Covered p mint l' k t
Covered-others p mint o k t l l' keeps ne (owned, enough) =
    let (owned', le) = keeps (p.associated_token k mint) k owned ne in (owned', omega arith)
