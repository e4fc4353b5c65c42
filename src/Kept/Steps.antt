-- ===== src/Kept/Steps.antt =====
-- The helpers that the handlers share (claim.rs, task.rs, dispute.rs), in the words of the promises.
use clustly_solana_escrow.Base.{
  ℕ, ◌+◌, ◌*◌, ◌/◌, ◌%◌, ◌^◌, ◌≤◌, ◌≡◌, inl, inr, true, ◌&&◌, ltb, leb, ◌==◌, if◌then◌else◌, arith,
  Bool-cases,
}
use clustly_solana_escrow.Base.Int.{ℤ, pos, ltb_ℤ, leb_ℤ, saturating_sub_i64}
use clustly_solana_escrow.Contract.Reasons.{Elapsed}
use clustly_solana_escrow.Error.{ok, >>=-eq-ok, ok-injective}
use clustly_solana_escrow.State.{
  Pubkey, EscrowConfig, EscrowTask, EscrowClaim, task_status, ClaimStatus, claim_status, is_open,
  claim_status_to_u8, compute_fee_split, checked_inc,
}
use clustly_solana_escrow.State.Fee.{compute_fee_split_sum}
use clustly_solana_escrow.Platform.{Ledger, Platform, balance_of}
use clustly_solana_escrow.World.{World}
use clustly_solana_escrow.Payout.{PayoutKeys, pay_split, pay_deliverer, refund_slot}
use clustly_solana_escrow.Closing.{drain_vault, past_deadline}
use clustly_solana_escrow.Promise.Terms.{
  Transferred, VaultEmptied, DeadlinePassed, PaidOut, RefundedTo,
}

pub keys_eq : {a b : Pubkey} → (a == b) ≡ true → a ≡ b
keys_eq h = ground arith

pub checked_inc_sound : (bits n : ℕ) {m : ℕ} → checked_inc bits n ≡ ok m → m ≡ n + 1
unfolding checked_inc
checked_inc_sound bits n h = ground arith

-- The window test, without the saturation.
pub Elapsed-window :
    (since now : ℤ)
    → (ltb_ℤ (pos 0) since && leb_ℤ (pos 1_209_600) (saturating_sub_i64 now since)) ≡ true
    → Elapsed since now
Elapsed-window since now h = (ground arith, ground arith)

pub open_byte : (t : EscrowTask) → is_open (task_status t) ≡ true → t.status ≡ 0
unfolding task_status
open_byte t h = ground arith

pub claim_byte :
    (c : EscrowClaim) (s : ClaimStatus) → claim_status c ≡ ok s → c.status ≡ claim_status_to_u8 s
unfolding claim_status
claim_byte c s h = ground arith

pub leb_le : (a b : ℕ) → leb a b ≡ true → a ≤ b
leb_le a b h = ground arith

pub past_deadline_sound :
    (t : EscrowTask) (now : ℤ) → past_deadline t now ≡ true → DeadlinePassed t now
unfolding past_deadline
past_deadline_sound t now h = (ground arith, ground arith)

pub transfer_if-Transferred :
    (p : Platform) (l : Ledger) (from to authority : Pubkey) (n : ℕ) (l' : Ledger)
    → (if ltb 0 n then p.transfer l from to authority n else ok l) ≡ ok l'
    → Transferred p l from to authority n l'
transfer_if-Transferred p l from to authority n l' h = elim (Bool-cases (ltb 0 n)) [
  | inl positive ↦ inr (ground arith, rw positive at h)
  | inr nothing ↦ inl (ground arith, ok-injective (rw nothing at h))
]

pub drain_vault-VaultEmptied :
    (p : Platform) (l : Ledger) (task vault poster_ata : Pubkey) (amount : ℕ) (l' : Ledger)
    → balance_of (l vault) ≡ amount
    → drain_vault p l task vault poster_ata amount ≡ ok l'
    → VaultEmptied p l task vault poster_ata l'
unfolding drain_vault
drain_vault-VaultEmptied p l task vault poster_ata amount l' loaded h =
    let (between, moves, closes) =
      >>=-eq-ok (if ltb 0 amount then p.transfer l vault poster_ata task amount else ok l) _ h in
    record {
      between = between;
      moves = rw loaded (transfer_if-Transferred p l vault poster_ata task amount between moves);
      closes = closes;
    }

fee_share :
    (bounty fee_bps : ℕ) {net fee : ℕ}
    → compute_fee_split bounty fee_bps ≡ ok (net, fee)
    → fee ≡ bounty * fee_bps / 10_000 % 2 ^ 64
unfolding compute_fee_split
fee_share bounty fee_bps h = ground arith

pub pay_deliverer-PaidOut :
    (p : Platform) (w w' : World) (a : PayoutKeys) (final : ClaimStatus) (config : EscrowConfig)
    (task : EscrowTask) (claim : EscrowClaim)
    → pay_deliverer p w a final config task claim ≡ ok w'
    → PaidOut p w w' a (claim_status_to_u8 final) config task claim
unfolding pay_deliverer pay_split
pay_deliverer-PaidOut p w w' a final config task claim h =
    let ((net, fee), split, rest) = >>=-eq-ok (compute_fee_split task.bounty config.fee_bps) _ h in
    let (ledger, transferred, rest') = >>=-eq-ok (pay_split p w.ledger a net fee) _ rest in
    let (slots, counted, done) = >>=-eq-ok (checked_inc 16 task.slots_approved) _ rest' in
    let (between, first, second) = >>=-eq-ok _ _ transferred in
    record {
      net = net;
      fee = fee;
      between = between;
      ledger = ledger;
      share = fee_share task.bounty config.fee_bps split;
      whole = compute_fee_split_sum task.bounty config.fee_bps split;
      to_claimer =
          transfer_if-Transferred p w.ledger a.task_vault a.claimer_ata a.task net between first;
      to_fee_vault =
          transfer_if-Transferred p between a.task_vault a.fee_vault a.task fee ledger second;
      written = ground (arith, checked_inc_sound 16 task.slots_approved counted);
    }

pub refund_slot-RefundedTo :
    (p : Platform) (w w' : World) (task_key claim_key vault poster_ata : Pubkey) (task : EscrowTask)
    (claim' : EscrowClaim)
    → refund_slot p w task_key claim_key vault poster_ata task claim' ≡ ok w'
    → RefundedTo p w w' task_key claim_key vault poster_ata task claim'
unfolding refund_slot
refund_slot-RefundedTo p w w' task_key claim_key vault poster_ata task claim' h =
    let (ledger, transferred, rest) =
      >>=-eq-ok (p.transfer w.ledger vault poster_ata task_key task.bounty) _ h in
    let (slots, counted, done) = >>=-eq-ok (checked_inc 16 task.slots_refunded) _ rest in
    record {
      ledger = ledger;
      to_poster = transferred;
      written = ground (arith, checked_inc_sound 16 task.slots_refunded counted);
    }
