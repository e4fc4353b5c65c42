-- ===== src/Closing.antt =====
-- What the three instructions that close a task's vault share (task.rs).
use clustly_solana_escrow.Base.{ℕ, Bool, ◌&&◌, ltb, if◌then◌else◌}
use clustly_solana_escrow.Base.Int.{ℤ, pos, ltb_ℤ, leb_ℤ}
use clustly_solana_escrow.Error.{Result, ok, ◌>>=◌}
use clustly_solana_escrow.State.{Pubkey, EscrowTask}
use clustly_solana_escrow.Platform.{Ledger, Platform}

-- All that the vault held when it was loaded goes to the poster, and the vault is closed.
unfoldable pub drain_vault : Platform → Ledger → Pubkey → Pubkey → Pubkey → ℕ → Result Ledger
drain_vault p l task_key vault poster_ata amount = do
  drained ← if ltb 0 amount then p.transfer l vault poster_ata task_key amount else ok l
  p.close_account drained vault task_key

-- `task_deadline_ts > 0 && now >= task_deadline_ts`.
unfoldable pub past_deadline : EscrowTask → ℤ → Bool
past_deadline t now = ltb_ℤ (pos 0) t.task_deadline_ts && leb_ℤ t.task_deadline_ts now
