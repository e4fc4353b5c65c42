-- ===== src/Slots/Defs.antt =====
-- The bookkeeping of slots: a task's counters against the claims on the chain.
use clustly_solana_escrow.Base.{
  ℕ, ◌+◌, ◌≤◌, ◌<◌, ◌≡◌, Bool, true, false, not, ◌&&◌, Option, some, ◌==◌, if◌then◌else◌,
}
use clustly_solana_escrow.Base.Dict.{lookup, total, Distinct}
use clustly_solana_escrow.Error.{Result, ok, err}
use clustly_solana_escrow.State.{
  Pubkey, EscrowConfig, EscrowTask, EscrowClaim, task_status, claim_status, closed_task,
  ClaimStatus, is_terminal, max_rejections, fee_bps_cap, max_slots_limit,
}
use clustly_solana_escrow.World.{World, Account, config_account, task_account, claim_account}
use clustly_solana_escrow.Task.Close.{active_slots}
use clustly_solana_escrow.Contract.Reasons.{ConfigAt, TaskAt, ClaimAt}

-- A claim that can still be paid, refunded or cancelled.
abbrev active_status : Result ClaimStatus → Bool
active_status (ok s) = not (is_terminal s)
active_status (err e) = false

unfoldable pub is_active : EscrowClaim → Bool
unfolding is_terminal
is_active c = active_status (claim_status c)

-- An account counts for the task if it is an active claim of it.
unfoldable pub live : Pubkey → Account → ℕ
live k (config_account c) = 0
live k (task_account t) = 0
live k (claim_account c) = if c.task == k && is_active c then 1 else 0

-- The active slots that the task's own counters show.
abbrev pub counted_slots : Option Account → ℕ
counted_slots (some (task_account t)) = active_slots t
counted_slots _ = 0

pub record TaskIsSound (t : EscrowTask) : Type 0 where
  pub settled_le : t.slots_approved + t.slots_refunded ≤ t.slots_enrolled
  pub enrolled_le : t.slots_enrolled ≤ t.max_slots
  pub max_le : t.max_slots ≤ max_slots_limit
  pub closed_settled :
      task_status t ≡ closed_task → t.slots_approved + t.slots_refunded ≡ t.slots_enrolled

pub record ClaimIsSound (c : EscrowClaim) : Type 0 where
  pub decodes : (s : ClaimStatus) × (claim_status c ≡ ok s)
  pub rejections_le : c.rejections ≤ max_rejections
  pub active_below : is_active c ≡ true → c.rejections < max_rejections

-- The well-formedness of the chain.
pub record IsSound (w : World) : Type 0 where
  pub distinct : Distinct w.accounts
  pub counted : (k : Pubkey) → total (live k) w.accounts ≡ counted_slots (lookup k w.accounts)
  pub tasks : (k : Pubkey) (t : EscrowTask) → TaskAt w k t → TaskIsSound t
  pub claims : (k : Pubkey) (c : EscrowClaim) → ClaimAt w k c → ClaimIsSound c
  pub configs : (k : Pubkey) (c : EscrowConfig) → ConfigAt w k c → c.fee_bps ≤ fee_bps_cap

pub is_active_of :
    (c : EscrowClaim) (s : ClaimStatus) → claim_status c ≡ ok s → is_active c ≡ not (is_terminal s)
unfolding is_active
is_active_of c s h = rw h
