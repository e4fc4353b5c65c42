-- ===== src/Lifecycle.antt =====
-- The life of a claim over the instructions of claim.rs and dispute.rs: what has become of it after
-- a step and after a run.
pub mod Edges
use clustly_solana_escrow.Base.{
  ◌+◌, ◌≡◌, ◌≢◌, inl, inr, refl, sym, ap, ◌∙◌, true, false, none, ◌==◌, arith, Bool-cases,
}
use clustly_solana_escrow.Base.Dict.{lookup, lookup-insert, lookup-erase}
use clustly_solana_escrow.Error.{ok, ok-injective}
use clustly_solana_escrow.State.{
  Pubkey, EscrowTask, EscrowClaim, claim_status, set_claim_status, set_task_status, closed_task,
  ClaimStatus, is_terminal,
}
use clustly_solana_escrow.State.Status.{claim_status-set}
use clustly_solana_escrow.Platform.{Platform}
use clustly_solana_escrow.World.{World, Env, config_account, task_account, claim_account, store}
use clustly_solana_escrow.Contract.Reasons.{
  ClaimAt, HasSigned, first_submission, resubmission, rejection, dispute,
}
use clustly_solana_escrow.Contract.Claims.{Paid, Refunded, ClaimMoved, SlotTaken}
use clustly_solana_escrow.Contract.{
  Transition, configured, reconfigured, repinned, funded, withdrawn, closed, slot_taken,
  claim_moved, paid, refunded, fees_taken,
}
use clustly_solana_escrow.Refines.{process-Transition}
use clustly_solana_escrow.System.{Step, executes, others_act, Reach, start, later}
use clustly_solana_escrow.Slots.Settle.{written}
use Edges.{
  Advance, moves, approves, cancels, for_deliverer, for_poster, Evolved, unchanged, advanced,
  claim_after, claim_once, claim_kept, pay_edge, refund_edge, evolve, not_turn, Move-turn,
}

module _ (p : Platform) (env : Env) (w w' : World) (k : Pubkey) (c : EscrowClaim)
    (h : ClaimAt w k c) where
  Paid-Evolved : Paid p env w w' → Evolved (HasSigned env) w' k c
  Paid-Evolved m =
      let a = m.keys in
      let t' : EscrowTask = record m.task { slots_approved = m.task.slots_approved + 1 } in
      let claim' : EscrowClaim = set_claim_status m.final m.claim in
      let (s, read, edge, not_his) = pay_edge m.reason in
      rw m.settled.written
        (elim (claim_after w a.task a.claim m.task t' claim' m.settled.ledger k c m.facts.task_is.0
          h) [
            | inl (e, now) ↦
                evolve w (written w a.task a.claim m.task t' claim' m.settled.ledger) e
                  m.facts.claim_is.0 h now read (claim_status-set m.final m.claim) edge refl refl
                  (not_turn s not_his)
            | inr (ne, now) ↦ unchanged now
          ])

  Refunded-Evolved : Refunded p env w w' → Evolved (HasSigned env) w' k c
  Refunded-Evolved m =
      let t' : EscrowTask = record m.task { slots_refunded = m.task.slots_refunded + 1 } in
      let (s, s', read, becomes, edge, t, r, not_his) = refund_edge m.reason in
      rw m.written
        (elim (claim_after w m.task_key m.claim_key m.task t' m.claim' m.ledger k c m.task_at h) [
          | inl (e, now) ↦
              evolve w (written w m.task_key m.claim_key m.task t' m.claim' m.ledger) e m.claim_at h
                now read becomes edge t r (not_turn s not_his)
          | inr (ne, now) ↦ unchanged now
        ])

  SlotTaken-Evolved : SlotTaken p env w w' → Evolved (HasSigned env) w' k c
  SlotTaken-Evolved m =
      let t' : EscrowTask = record m.task { slots_enrolled = m.task.slots_enrolled + 1 } in
      rw m.written
        (elim (claim_after w m.task_key m.claim_key m.task t' m.claim m.ledger k c m.task_at h) [
          | inl (e, now) ↦ absurd (unused_claim (rw e at m.unused))
          | inr (ne, now) ↦ unchanged now
        ])
    where
      unused_claim : lookup k w.accounts ≡ none → ⊥
      unused_claim u = ground arith

  ClaimMoved-Evolved : ClaimMoved env w w' → Evolved (HasSigned env) w' k c
  ClaimMoved-Evolved m = rw m.written (elim (Bool-cases (m.claim_key == k)) [
    | inl same ↦
        evolve w (store m.claim_key (claim_account m.claim') w) (eq_of same) m.claim_at h
          (here same) m.read m.becomes (moves m.move) m.same_task m.same_claimer
          (Move-turn env m.move m.task m.claim m.signed)
    | inr other ↦
        unchanged (claim_once w m.claim_key (claim_account m.claim') w.ledger k c h (ne_of other))
  ])
    where
      eq_of : (m.claim_key == k) ≡ true → m.claim_key ≡ k
      eq_of e = ground arith

      ne_of : (m.claim_key == k) ≡ false → m.claim_key ≢ k
      ne_of e = ground arith

      here :
          (m.claim_key == k) ≡ true
          → ClaimAt (store m.claim_key (claim_account m.claim') w) k m.claim'
      here e = ground (arith, lookup-insert m.claim_key k (claim_account m.claim') w.accounts)

  Transition-Evolved : Transition p env w w' → Evolved (HasSigned env) w' k c
  Transition-Evolved (configured m) = rw m.written (
      unchanged (
        claim_kept w m.config_key (config_account m.config) m.ledger k c h
          (λ d g. ground (arith, m.unused))))
  Transition-Evolved (reconfigured m) = rw m.written (
      unchanged (
        claim_kept w m.config_key (config_account m.config') w.ledger k c h
          (λ d g. ground (arith, m.config_at))))
  Transition-Evolved (repinned m) = rw m.written (
      unchanged (
        claim_kept w m.config_key (config_account (record m.config { usdc_mint = m.mint })) w.ledger
          k c h (λ d g. ground (arith, m.config_at))))
  Transition-Evolved (funded m) = rw m.written (
      unchanged (
        claim_kept w m.task_key (task_account m.task) m.ledger k c h
          (λ d g. ground (arith, m.unused))))
  Transition-Evolved (withdrawn d idle e) =
      rw e (unchanged (ground (arith, lookup-erase d.task_key k w.accounts, d.task_at)))
  Transition-Evolved (closed d e) = rw e (
      unchanged (
        claim_kept w d.task_key (task_account (set_task_status closed_task d.task)) d.ledger k c h
          (λ x g. ground (arith, d.task_at))))
  Transition-Evolved (slot_taken m) = SlotTaken-Evolved m
  Transition-Evolved (claim_moved m) = ClaimMoved-Evolved m
  Transition-Evolved (paid m) = Paid-Evolved m
  Transition-Evolved (refunded m) = Refunded-Evolved m
  Transition-Evolved (fees_taken m) = rw m.written (unchanged h)

-- Who has signed in a step.
abbrev pub SignedIn : {p : Platform} {w w' : World} → Step p w w' → Pubkey → Type 0
SignedIn (executes env i sign h) who = HasSigned env who
SignedIn (others_act l mints act e) who = ⊥

-- No step takes a claim off the chain or hands it over: after a step it is what it was, or it has
-- taken one edge of the diagram `Advance`, with the same task and the same claimer, and by the
-- claimer's own signature if it was enrolled or rejected.
pub Step-Evolved :
    {p : Platform} {w w' : World} (k : Pubkey) (c : EscrowClaim)
    → ClaimAt w k c
    → (st : Step p w w') → Evolved (SignedIn st) w' k c
Step-Evolved {p} {w} {w'} k c h (executes env i sign r) =
    Transition-Evolved p env w w' k c h (process-Transition p env w w' i r)
Step-Evolved k c h (others_act l mints act e) = rw e (unchanged h)

no_edge : {s s' : ClaimStatus} → Advance s s' → is_terminal s ≡ true → ⊥
unfolding is_terminal
no_edge (moves first_submission) t = cc
no_edge (moves resubmission) t = cc
no_edge (moves rejection) t = cc
no_edge (moves dispute) t = cc
no_edge approves t = cc
no_edge cancels t = cc
no_edge for_deliverer t = cc
no_edge for_poster t = cc

Step-settled :
    {Signed : Pubkey → Type 0} {w' : World} (k : Pubkey) (c : EscrowClaim) (s : ClaimStatus)
    → claim_status c ≡ ok s
    → is_terminal s ≡ true
    → Evolved Signed w' k c
    → ClaimAt w' k c
Step-settled k c s read term (unchanged g) = g
Step-settled k c s read term (advanced c' g read' becomes edge t r turn) =
    absurd (no_edge edge (ap is_terminal (ok-injective (sym read' ∙ read)) ∙ term))

-- A claim that is approved, cancelled or resolved stays exactly as it is in every state that can be
-- reached from there.
pub Reach-settled :
    {p : Platform} {w w' : World} (k : Pubkey) (c : EscrowClaim) (s : ClaimStatus)
    → ClaimAt w k c
    → claim_status c ≡ ok s
    → is_terminal s ≡ true
    → Reach p w w'
    → ClaimAt w' k c
Reach-settled k c s h read term start = h
Reach-settled {p} k c s h read term (later r st) =
    let g = Reach-settled k c s h read term r in
    Step-settled k c s read term (Step-Evolved k c g st)
