-- ===== src/Lifecycle/Edges.antt =====
-- The diagram of claim statuses that claim.rs and dispute.rs draw, and the writes that take a claim
-- along one of its edges.
use clustly_solana_escrow.Base.{
  ◌+◌, ◌≡◌, ◌≢◌, ◌⊎◌, refl, sym, ap, ◌∙◌, Bool, true, false, some, arith,
}
use clustly_solana_escrow.Base.Dict.{lookup, lookup-insert}
use clustly_solana_escrow.Error.{ok}
use clustly_solana_escrow.State.{
  Pubkey, EscrowConfig, EscrowTask, EscrowClaim, claim_status, ClaimStatus, enrolled, submitted,
  approved, rejected, cancelled, disputed, resolved_deliverer, resolved_poster,
}
use clustly_solana_escrow.State.Status.{claim_status-set}
use clustly_solana_escrow.Platform.{Ledger}
use clustly_solana_escrow.World.{World, Env, Account, claim_account, store}
use clustly_solana_escrow.Contract.Reasons.{
  TaskAt, ClaimAt, HasSigned, Move, first_submission, resubmission, rejection, dispute, mover,
  PayReason, approval, silent_poster, silent_admin, RefundReason, third_rejection,
}
use clustly_solana_escrow.Slots.Settle.{written}
use clustly_solana_escrow.Slots.Writes.{lookup-after}
use mathlib.Core.Path.{subst}

-- The edges of the diagram of claim statuses.
pub data Advance : ClaimStatus → ClaimStatus → Type 0 where
  moves : {s s' : ClaimStatus} → Move s s' → Advance s s'
  approves : Advance submitted approved
  cancels : Advance submitted cancelled
  for_deliverer : Advance disputed resolved_deliverer
  for_poster : Advance disputed resolved_poster

-- In these statuses only the claimer can act.
unfoldable pub is_claimers_turn : ClaimStatus → Bool
is_claimers_turn enrolled = true
is_claimers_turn rejected = true
is_claimers_turn _ = false

-- What has become of a claim: nothing, or it has taken one edge, for the same task and claimer, and
-- by the claimer's signature if it was his turn. `Signed` tells who has signed.
pub data Evolved (Signed : Pubkey → Type 0) (w' : World) (k : Pubkey) (c : EscrowClaim)
    : Type 0 where
  unchanged : ClaimAt w' k c → Evolved Signed w' k c
  advanced :
      (c' : EscrowClaim) {s s' : ClaimStatus}
      → ClaimAt w' k c'
      → claim_status c ≡ ok s
      → claim_status c' ≡ ok s'
      → Advance s s'
      → c'.task ≡ c.task
      → c'.claimer ≡ c.claimer
      → (is_claimers_turn s ≡ true → Signed c.claimer)
      → Evolved Signed w' k c

same_claim :
    (w : World) {j k : Pubkey} {c d : EscrowClaim} → j ≡ k → ClaimAt w j c → ClaimAt w k d → c ≡ d
same_claim w e h g = ground arith

-- A task and then a claim are written: the claim under the written key is the written one.
module _ (w : World) (task_key claim_key : Pubkey) (task task' : EscrowTask) (claim' : EscrowClaim)
    (ledger : Ledger) where
  abbrev after : World
  after = written w task_key claim_key task task' claim' ledger

  pub claim_after :
      (k : Pubkey) (c : EscrowClaim)
      → TaskAt w task_key task
      → ClaimAt w k c
      → ((claim_key ≡ k) × ClaimAt after k claim') ⊎ ((claim_key ≢ k) × ClaimAt after k c)
  claim_after k c at h =
      ground (arith, lookup-after w.accounts task_key claim_key task task' claim' k)

module _ (w : World) (j : Pubkey) (a : Account) (ledger : Ledger) where
  pub claim_once :
      (k : Pubkey) (c : EscrowClaim)
      → ClaimAt w k c
      → j ≢ k
      → ClaimAt (store j a (record w { ledger = ledger })) k c
  claim_once k c h ne = ground (arith, lookup-insert j k a w.accounts)

  pub claim_kept :
      (k : Pubkey) (c : EscrowClaim)
      → ClaimAt w k c
      → ((d : EscrowClaim) → lookup j w.accounts ≢ some (claim_account d))
      → ClaimAt (store j a (record w { ledger = ledger })) k c
  claim_kept k c h other = claim_once k c h (λ e. other c (rw e h))

pub pay_edge :
    {env : Env} {config : EscrowConfig} {task : EscrowTask} {claim : EscrowClaim} {f : ClaimStatus}
    → PayReason env config task claim f
    → (s : ClaimStatus) × (claim_status claim ≡ ok s) × Advance s f × (is_claimers_turn s ≡ false)
unfolding is_claimers_turn
pay_edge (approval _ _ h) = (submitted, h, approves, refl)
pay_edge (silent_poster _ _ h) = (submitted, h, approves, refl)
pay_edge (PayReason.ruling _ h) = (disputed, h, for_deliverer, refl)
pay_edge (silent_admin _ h) = (disputed, h, for_deliverer, refl)

pub refund_edge :
    {env : Env} {config : EscrowConfig} {task : EscrowTask} {claim claim' : EscrowClaim}
    → RefundReason env config task claim claim'
    → (s : ClaimStatus) × (s' : ClaimStatus) × (claim_status claim ≡ ok s)
      × (claim_status claim' ≡ ok s')
      × Advance s s'
      × (claim'.task ≡ claim.task)
      × (claim'.claimer ≡ claim.claimer)
      × (is_claimers_turn s ≡ false)
unfolding is_claimers_turn
refund_edge {claim = c} (third_rejection _ _ h _) = (
  submitted,
  cancelled,
  h,
  claim_status-set cancelled (record c { rejections = c.rejections + 1 }),
  cancels,
  refl,
  refl,
  refl,
)
refund_edge {claim = c} (RefundReason.ruling _ h) =
    (disputed, resolved_poster, h, claim_status-set resolved_poster c, for_poster, refl, refl, refl)

-- The claim that was written, seen from the claim that stood there.
pub evolve :
    {Signed : Pubkey → Type 0} (w w' : World) {j k : Pubkey} {m c c' : EscrowClaim}
    {s s' : ClaimStatus}
    → j ≡ k
    → ClaimAt w j m
    → ClaimAt w k c
    → ClaimAt w' k c'
    → claim_status m ≡ ok s
    → claim_status c' ≡ ok s'
    → Advance s s'
    → c'.task ≡ m.task
    → c'.claimer ≡ m.claimer
    → (is_claimers_turn s ≡ true → Signed m.claimer)
    → Evolved Signed w' k c
evolve {Signed = Signed} w w' {c' = c'} e hm hc now read becomes edge t r turn =
    let same = same_claim w e hm hc in
    advanced c' now (ap claim_status (sym same) ∙ read) becomes edge (t ∙ ap EscrowClaim.task same)
      (r ∙ ap EscrowClaim.claimer same) (λ g. subst Signed (ap EscrowClaim.claimer same) (turn g))

pub not_turn :
    (s : ClaimStatus) {A : Type 0} → is_claimers_turn s ≡ false → is_claimers_turn s ≡ true → A
not_turn s f t = cc

pub Move-turn :
    (env : Env) {s s' : ClaimStatus} (m : Move s s') (t : EscrowTask) (c : EscrowClaim)
    → HasSigned env (mover m t c)
    → is_claimers_turn s ≡ true
    → HasSigned env c.claimer
unfolding is_claimers_turn
Move-turn env first_submission t c h e = h
Move-turn env resubmission t c h e = h
Move-turn env rejection t c h e = cc
Move-turn env dispute t c h e = h
