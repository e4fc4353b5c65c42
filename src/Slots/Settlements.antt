-- ===== src/Slots/Settlements.antt =====
-- The bookkeeping under payouts, refunds and enrolments.
use clustly_solana_escrow.Base.{ℕ, ◌+◌, ◌≤◌, ◌<◌, ◌≡◌, refl, ◌∙◌, true, arith}
use clustly_solana_escrow.Base.Dict.{lookup, weight_of, weight-le-total}
use clustly_solana_escrow.Error.{ok}
use clustly_solana_escrow.State.{
  Pubkey, EscrowConfig, EscrowTask, EscrowClaim, task_status, claim_status, set_claim_status,
  open_task, ClaimStatus, enrolled, submitted, cancelled, disputed, resolved_poster, is_terminal,
  max_rejections,
}
use clustly_solana_escrow.State.Status.{claim_status-set}
use clustly_solana_escrow.Platform.{Platform}
use clustly_solana_escrow.World.{World, Env, claim_account}
use clustly_solana_escrow.Task.Close.{active_slots}
use clustly_solana_escrow.Contract.Reasons.{
  TaskAt, ClaimAt, PayReason, approval, silent_poster, silent_admin, RefundReason, third_rejection,
}
use clustly_solana_escrow.Contract.Claims.{Paid, Refunded, SlotTaken}
use clustly_solana_escrow.Slots.Defs.{
  live, is_active, TaskIsSound, ClaimIsSound, IsSound, is_active_of,
}
use clustly_solana_escrow.Slots.Settle.{written-IsSound}

module _ {w : World} (s : IsSound w) (task_key claim_key : Pubkey) (task : EscrowTask)
    (claim : EscrowClaim) where
  -- An active claim takes one of the slots that its task still counts.
  pub active_slot :
      TaskAt w task_key task
      → ClaimAt w claim_key claim
      → claim.task ≡ task_key
      → is_active claim ≡ true
      → (weight_of (live task_key) (lookup claim_key w.accounts) ≡ 1) × (1 ≤ active_slots task)
  unfolding live
  active_slot at ct own act =
      let one : weight_of (live task_key) (lookup claim_key w.accounts) ≡ 1 = ground arith in
      (
        one,
        ground
            (arith, one, s.counted task_key, weight-le-total (live task_key) claim_key w.accounts),
      )

-- A claim that is settled no longer counts.
settled_live :
    (k : Pubkey) (c : EscrowClaim) (f : ClaimStatus)
    → claim_status c ≡ ok f
    → is_terminal f ≡ true
    → live k (claim_account c) ≡ 0
unfolding live
settled_live k c f h t = ground (arith, is_active_of c f h)

settled-ClaimIsSound :
    (c : EscrowClaim) (f : ClaimStatus)
    → claim_status c ≡ ok f
    → is_terminal f ≡ true
    → c.rejections ≤ max_rejections
    → ClaimIsSound c
settled-ClaimIsSound c f h t r = record {
  decodes = (f, h);
  rejections_le = r;
  active_below = λ a. ground (arith, is_active_of c f h);
}

-- One more slot of the task is settled.
settled-TaskIsSound :
    (t : EscrowTask) (approved' refunded' : ℕ)
    → TaskIsSound t
    → 1 ≤ active_slots t
    → approved' + refunded' ≡ t.slots_approved + t.slots_refunded + 1
    → TaskIsSound (record t { slots_approved = approved'; slots_refunded = refunded' })
unfolding task_status
settled-TaskIsSound t approved' refunded' s a e = record {
  settled_le = omega (arith, s.settled_le);
  enrolled_le = s.enrolled_le;
  max_le = s.max_le;
  closed_settled = λ c. absurd (omega (arith, s.closed_settled c));
}

pay_active :
    {env : Env} {config : EscrowConfig} {task : EscrowTask} {claim : EscrowClaim} {f : ClaimStatus}
    → PayReason env config task claim f
    → (is_active claim ≡ true) × (is_terminal f ≡ true)
unfolding is_terminal
pay_active {claim = c} (approval _ _ h) = (is_active_of c submitted h, refl)
pay_active {claim = c} (silent_poster _ _ h) = (is_active_of c submitted h, refl)
pay_active {claim = c} (PayReason.ruling _ h) = (is_active_of c disputed h, refl)
pay_active {claim = c} (silent_admin _ h) = (is_active_of c disputed h, refl)

pub Paid-IsSound :
    {p : Platform} {env : Env} {w w' : World} → IsSound w → Paid p env w w' → IsSound w'
Paid-IsSound {w} s m =
    let (act, term) = pay_active m.reason in
    let f = m.facts in
    let (one, room) =
      active_slot s m.keys.task m.keys.claim m.task m.claim f.task_is.0 f.claim_is.0 f.belongs
        act in
    let c = s.claims m.keys.claim m.claim f.claim_is.0 in
    let claim' : EscrowClaim = set_claim_status m.final m.claim in
    let read : claim_status claim' ≡ ok m.final = claim_status-set m.final m.claim in
    let task' : EscrowTask = record m.task { slots_approved = m.task.slots_approved + 1 } in
    rw m.settled.written (
      written-IsSound w m.keys.task m.keys.claim m.task task' claim' m.settled.ledger s f.task_is.0
        (rw f.claim_is.0 f.belongs) f.belongs
        (omega (arith, one, room, settled_live m.keys.task claim' m.final read term))
        (settled-TaskIsSound m.task (m.task.slots_approved + 1) m.task.slots_refunded
          (s.tasks m.keys.task m.task f.task_is.0) room (omega arith))
        (settled-ClaimIsSound claim' m.final read term c.rejections_le))

-- What a refund writes about the claim.
record RefundedClaim (claim claim' : EscrowClaim) : Type 0 where
  final : ClaimStatus
  read : claim_status claim' ≡ ok final
  terminal : is_terminal final ≡ true
  active : is_active claim ≡ true
  same_task : claim'.task ≡ claim.task
  rejections_le : claim'.rejections ≤ claim.rejections + 1

refund_claim :
    {env : Env} {config : EscrowConfig} {task : EscrowTask} {claim claim' : EscrowClaim}
    → RefundReason env config task claim claim'
    → RefundedClaim claim claim'
unfolding is_terminal
refund_claim {claim = c} (third_rejection _ _ h _) = record {
  final = cancelled;
  read = claim_status-set cancelled (record c { rejections = c.rejections + 1 });
  terminal = refl;
  active = is_active_of c submitted h;
  same_task = refl;
  rejections_le = omega arith;
}
refund_claim {claim = c} (RefundReason.ruling _ h) = record {
  final = resolved_poster;
  read = claim_status-set resolved_poster c;
  terminal = refl;
  active = is_active_of c disputed h;
  same_task = refl;
  rejections_le = omega arith;
}

pub Refunded-IsSound :
    {p : Platform} {env : Env} {w w' : World} → IsSound w → Refunded p env w w' → IsSound w'
Refunded-IsSound {w} s m =
    let f = refund_claim m.reason in
    let (one, room) =
      active_slot s m.task_key m.claim_key m.task m.claim m.task_at m.claim_at m.belongs f.active in
    let below = (s.claims m.claim_key m.claim m.claim_at).active_below f.active in
    let task' : EscrowTask = record m.task { slots_refunded = m.task.slots_refunded + 1 } in
    rw m.written (
      written-IsSound w m.task_key m.claim_key m.task task' m.claim' m.ledger s m.task_at
        (rw m.claim_at m.belongs) (f.same_task ∙ m.belongs)
        (omega (arith, one, room, settled_live m.task_key m.claim' f.final f.read f.terminal))
        (settled-TaskIsSound m.task m.task.slots_approved (m.task.slots_refunded + 1)
          (s.tasks m.task_key m.task m.task_at) room (omega arith))
        (settled-ClaimIsSound m.claim' f.final f.read f.terminal
          (omega (arith, below, f.rejections_le))))

enrolled_live :
    (k : Pubkey) (c : EscrowClaim)
    → c.task ≡ k
    → claim_status c ≡ ok enrolled
    → live k (claim_account c) ≡ 1
unfolding live is_terminal
enrolled_live k c own h = ground (arith, is_active_of c enrolled h)

enrolled-TaskIsSound :
    (t : EscrowTask)
    → TaskIsSound t
    → task_status t ≡ open_task
    → t.slots_enrolled < t.max_slots
    → TaskIsSound (record t { slots_enrolled = t.slots_enrolled + 1 })
unfolding task_status
enrolled-TaskIsSound t s op room = record {
  settled_le = omega (arith, s.settled_le);
  enrolled_le = omega arith;
  max_le = s.max_le;
  closed_settled = λ c. ground arith;
}

pub SlotTaken-IsSound :
    {p : Platform} {env : Env} {w w' : World} → IsSound w → SlotTaken p env w w' → IsSound w'
SlotTaken-IsSound {w} s m =
    let task' : EscrowTask = record m.task { slots_enrolled = m.task.slots_enrolled + 1 } in
    let t = s.tasks m.task_key m.task m.task_at in
    rw m.written (
      written-IsSound w m.task_key m.claim_key m.task task' m.claim m.ledger s m.task_at
        (rw m.unused tt) m.belongs
        (rw m.unused
          (omega (arith, t.settled_le, enrolled_live m.task_key m.claim m.belongs m.status)))
        (enrolled-TaskIsSound m.task t m.is_open_task m.room)
        (record {
          decodes = (enrolled, m.status);
          rejections_le = omega (arith, m.no_rejections);
          active_below = λ a. omega (arith, m.no_rejections);
        }))
