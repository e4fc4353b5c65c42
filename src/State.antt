-- ===== src/State.antt =====
-- state.rs: the constants, the three accounts of the program, their status bytes, and the split
-- of a bounty into the payout and the fee. A key is a number, a byte string a list of numbers, and
-- the Solana runtime's timestamps are integers.
pub mod Status
pub mod Fee
use clustly_solana_escrow.Base.{
  ℕ, zero, suc, ◌+◌, ◌-◌, ◌*◌, ◌/◌, ◌%◌, ◌^◌, ◌==◌, Bool, true, false, Option, none, some, List, [],
  ◌∷◌, ltb, if◌then◌else◌,
}
use clustly_solana_escrow.Base.Int.{ℤ, pos}
use clustly_solana_escrow.Error.{
  Result, ok, err, Error, escrow, invalid_state_transition, math_overflow, ok_or, ◌>>=◌,
}

abbrev pub Pubkey : Type 0
Pubkey = ℕ

abbrev pub Bytes : Type 0
Bytes = List ℕ

-- `[0u8; n]`.
unfoldable pub zeros : ℕ → Bytes
zeros zero = []
zeros (suc n) = 0 ∷ zeros n

abbrev pub fee_bps_cap : ℕ
fee_bps_cap = 500

abbrev pub default_fee_bps : ℕ
default_fee_bps = 400

abbrev pub bps_denominator : ℕ
bps_denominator = 10_000

abbrev pub auto_approve_window_secs : ℤ
auto_approve_window_secs = pos (14 * 24 * 60 * 60)

abbrev pub auto_dispute_window_secs : ℤ
auto_dispute_window_secs = pos (14 * 24 * 60 * 60)

abbrev pub max_rejections : ℕ
max_rejections = 3

abbrev pub max_slots_limit : ℕ
max_slots_limit = 100

-- The seeds are the ASCII codes of "config", "task" and "claim".
abbrev pub config_seed : Bytes
config_seed = b'c' ∷ b'o' ∷ b'n' ∷ b'f' ∷ b'i' ∷ b'g' ∷ []

abbrev pub task_seed : Bytes
task_seed = b't' ∷ b'a' ∷ b's' ∷ b'k' ∷ []

abbrev pub claim_seed : Bytes
claim_seed = b'c' ∷ b'l' ∷ b'a' ∷ b'i' ∷ b'm' ∷ []

pub record EscrowConfig : Type 0 where
  pub admin : Pubkey
  pub usdc_mint : Pubkey
  pub fee_bps : ℕ  -- u16
  pub bump : ℕ  -- u8
  pub fee_vault_bump : ℕ  -- u8
  pub reserved : Bytes

pub data TaskStatus : Type 0 where
  open_task closed_task : TaskStatus

-- `s as u8`.
abbrev pub task_status_to_u8 : TaskStatus → ℕ
task_status_to_u8 open_task = 0
task_status_to_u8 closed_task = 1

pub record EscrowTask : Type 0 where
  pub task_id : Bytes
  pub poster : Pubkey
  pub bounty : ℕ  -- u64, for one slot
  pub max_slots : ℕ  -- u16
  pub slots_enrolled : ℕ  -- u16
  pub slots_approved : ℕ  -- u16
  pub slots_refunded : ℕ  -- u16
  pub status : ℕ  -- u8
  pub task_deadline_ts : ℤ  -- i64
  pub claim_deadline_secs : ℕ  -- u32
  pub bump : ℕ  -- u8
  pub vault_bump : ℕ  -- u8
  pub reserved : Bytes

-- `EscrowTask::status`.
unfoldable pub task_status : EscrowTask → TaskStatus
task_status t = if t.status == 0 then open_task else closed_task

-- `task.status() == TaskStatus::Open`.
abbrev pub is_open : TaskStatus → Bool
is_open open_task = true
is_open closed_task = false

abbrev pub set_task_status : TaskStatus → EscrowTask → EscrowTask
set_task_status s t = record t { status = task_status_to_u8 s }

pub data ClaimStatus : Type 0 where
  enrolled submitted approved rejected cancelled disputed : ClaimStatus
  resolved_deliverer resolved_poster : ClaimStatus

abbrev pub claim_status_to_u8 : ClaimStatus → ℕ
claim_status_to_u8 enrolled = 0
claim_status_to_u8 submitted = 1
claim_status_to_u8 approved = 2
claim_status_to_u8 rejected = 3
claim_status_to_u8 cancelled = 4
claim_status_to_u8 disputed = 5
claim_status_to_u8 resolved_deliverer = 6
claim_status_to_u8 resolved_poster = 7

unfoldable pub from_u8 : ℕ → Option ClaimStatus
from_u8 zero = some enrolled
from_u8 (suc zero) = some submitted
from_u8 (suc (suc zero)) = some approved
from_u8 (suc (suc (suc zero))) = some rejected
from_u8 (suc (suc (suc (suc zero)))) = some cancelled
from_u8 (suc (suc (suc (suc (suc zero))))) = some disputed
from_u8 (suc (suc (suc (suc (suc (suc zero)))))) = some resolved_deliverer
from_u8 (suc (suc (suc (suc (suc (suc (suc zero))))))) = some resolved_poster
from_u8 (suc (suc (suc (suc (suc (suc (suc (suc n)))))))) = none

unfoldable pub is_terminal : ClaimStatus → Bool
is_terminal approved = true
is_terminal cancelled = true
is_terminal resolved_deliverer = true
is_terminal resolved_poster = true
is_terminal _ = false

-- The derived `PartialEq`.
unfoldable pub status_eq : ClaimStatus → ClaimStatus → Bool
status_eq a b = claim_status_to_u8 a == claim_status_to_u8 b

pub record EscrowClaim : Type 0 where
  pub claim_id : Bytes
  pub task : Pubkey
  pub claimer : Pubkey
  pub status : ℕ  -- u8
  pub enrolled_at : ℤ  -- i64
  pub submitted_at : ℤ  -- i64
  pub disputed_at : ℤ  -- i64
  pub rejections : ℕ  -- u8
  pub deliverable_hash : Bytes
  pub bump : ℕ  -- u8
  pub reserved : Bytes

-- `EscrowClaim::status`.
unfoldable pub claim_status : EscrowClaim → Result ClaimStatus
unfolding from_u8
claim_status c = ok_or (from_u8 c.status) (escrow invalid_state_transition)

abbrev pub set_claim_status : ClaimStatus → EscrowClaim → EscrowClaim
set_claim_status s c = record c { status = claim_status_to_u8 s }

-- `checked_add(1)` on a `w`-bit counter, as every instruction calls it.
unfoldable pub checked_inc : ℕ → ℕ → Result ℕ
checked_inc w n = if ltb (n + 1) (2 ^ w) then ok (n + 1) else err (escrow math_overflow)

checked_mul_u128 : ℕ → ℕ → Option ℕ
checked_mul_u128 a b = if ltb (a * b) (2 ^ 128) then some (a * b) else none

checked_div : ℕ → ℕ → Option ℕ
checked_div a b = if b == 0 then none else some (a / b)

checked_sub : ℕ → ℕ → Option ℕ
checked_sub a b = if ltb a b then none else some (a - b)

-- The payout and the fee, in that order. `as u64` keeps the low 64 bits.
unfoldable pub compute_fee_split : ℕ → ℕ → Result (ℕ × ℕ)
unfolding checked_mul_u128 checked_div checked_sub
compute_fee_split bounty fee_bps = do
  product ← ok_or (checked_mul_u128 bounty fee_bps) (escrow math_overflow)
  quotient ← ok_or (checked_div product bps_denominator) (escrow math_overflow)
  let fee = quotient % 2 ^ 64
  net ← ok_or (checked_sub bounty fee) (escrow math_overflow)
  ok (net, fee)
