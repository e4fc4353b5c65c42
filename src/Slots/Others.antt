-- ===== src/Slots/Others.antt =====
-- The bookkeeping under the transitions that settle no claim.
use clustly_solana_escrow.Base.{◌≤◌, ◌<◌, ◌≡◌, refl, ap, ◌∙◌, true, false, not, some, arith}
use clustly_solana_escrow.Base.Dict.{
  lookup, erase, lookup-insert, lookup-erase, weight_of, total, total-insert, total-erase,
  insert-Distinct, erase-Distinct,
}
use clustly_solana_escrow.State.{
  Pubkey, EscrowConfig, EscrowTask, EscrowClaim, set_task_status, closed_task, ClaimStatus,
  is_terminal, max_rejections, fee_bps_cap,
}
use clustly_solana_escrow.Platform.{Ledger, Platform}
use clustly_solana_escrow.World.{
  World, Env, Account, config_account, task_account, claim_account, store,
}
use clustly_solana_escrow.Task.Close.{active_slots}
use clustly_solana_escrow.Contract.Reasons.{
  Move, first_submission, resubmission, rejection, dispute,
}
use clustly_solana_escrow.Contract.Claims.{ClaimMoved}
use clustly_solana_escrow.Contract.Tasks.{
  Funded, Drained, FeesTaken, Configured, Reconfigured, Repinned,
}
use clustly_solana_escrow.Slots.Defs.{
  live, is_active, counted_slots, TaskIsSound, ClaimIsSound, IsSound, is_active_of,
}

-- A single write of an account that is not a task, over one that counts as much.
module _ (w : World) (j : Pubkey) (a : Account) (ledger : Ledger) where
  abbrev once : World
  once = store j a (record w { ledger = ledger })

  counted-once :
      IsSound w
      → ((k : Pubkey) → weight_of (live k) (lookup j w.accounts) ≡ live k a)
      → counted_slots (lookup j w.accounts) ≡ counted_slots (some a)
      → (k : Pubkey) → total (live k) once.accounts ≡ counted_slots (lookup k once.accounts)
  counted-once s same slots k = ground (
    arith,
    same k,
    s.counted k,
    total-insert (live k) j a w.accounts,
    lookup-insert j k a w.accounts,
  )

  pub once-IsSound :
      IsSound w
      → ((k : Pubkey) → weight_of (live k) (lookup j w.accounts) ≡ live k a)
      → counted_slots (lookup j w.accounts) ≡ counted_slots (some a)
      → ((t : EscrowTask) → task_account t ≡ a → TaskIsSound t)
      → ((c : EscrowClaim) → claim_account c ≡ a → ClaimIsSound c)
      → ((c : EscrowConfig) → config_account c ≡ a → c.fee_bps ≤ fee_bps_cap)
      → IsSound once
  once-IsSound s same slots ts cs fs = record {
    distinct = insert-Distinct j a w.accounts s.distinct;
    counted = counted-once s same slots;
    tasks = λ k t h. ground (arith, ts t, s.tasks k t, lookup-insert j k a w.accounts);
    claims = λ k c h. ground (arith, cs c, s.claims k c, lookup-insert j k a w.accounts);
    configs = λ k c h. ground (arith, fs c, s.configs k c, lookup-insert j k a w.accounts);
  }

config_once :
    (w : World) (k : Pubkey) (c : EscrowConfig) (ledger : Ledger)
    → IsSound w
    → ((j : Pubkey) → weight_of (live j) (lookup k w.accounts) ≡ 0)
    → counted_slots (lookup k w.accounts) ≡ 0
    → c.fee_bps ≤ fee_bps_cap
    → IsSound (store k (config_account c) (record w { ledger = ledger }))
unfolding live
config_once w k c ledger s light slots capped =
    once-IsSound w k (config_account c) ledger s light slots (λ t h. cc) (λ t h. cc)
      λ d h. ground arith

pub Configured-IsSound : {p : Platform} {w w' : World} → IsSound w → Configured p w w' → IsSound w'
Configured-IsSound {w} s m =
    rw m.written
      (config_once w m.config_key m.config m.ledger s (λ j. rw m.unused) (rw m.unused) m.capped)

pub Reconfigured-IsSound :
    {env : Env} {w w' : World} → IsSound w → Reconfigured env w w' → IsSound w'
unfolding live
Reconfigured-IsSound {w} s m = rw m.written (
    config_once w m.config_key m.config' w.ledger s (λ j. rw m.config_at) (rw m.config_at)
      (m.capped (s.configs m.config_key m.config m.config_at)))

pub Repinned-IsSound : {env : Env} {w w' : World} → IsSound w → Repinned env w w' → IsSound w'
unfolding live
Repinned-IsSound {w} s m = rw m.written (
    config_once w m.config_key (record m.config { usdc_mint = m.mint }) w.ledger s
      (λ j. rw m.config_at) (rw m.config_at) (s.configs m.config_key m.config m.config_at))

pub Funded-IsSound :
    {p : Platform} {env : Env} {w w' : World} → IsSound w → Funded p env w w' → IsSound w'
unfolding live
Funded-IsSound {w} s m =
    let (e, a, r) = m.fresh in
    let ts : TaskIsSound m.task = record {
      settled_le = omega (arith, e, a, r);
      enrolled_le = omega (arith, e);
      max_le = m.slots_range.1;
      closed_settled = λ c. omega (arith, e, a, r);
    } in
    rw m.written (
      once-IsSound w m.task_key (task_account m.task) m.ledger s (λ k. rw m.unused)
        (rw m.unused (omega (arith, e))) (λ t h. task_case m.task t h ts) (λ c h. cc) (λ c h. cc))
  where
    task_case : (t u : EscrowTask) → task_account u ≡ task_account t → TaskIsSound t → TaskIsSound u
    task_case t u h ts = ground arith

Move-active :
    {before after : ClaimStatus}
    → Move before after
    → (is_terminal before ≡ false) × (is_terminal after ≡ false)
unfolding is_terminal
Move-active first_submission = (refl, refl)
Move-active resubmission = (refl, refl)
Move-active rejection = (refl, refl)
Move-active dispute = (refl, refl)

live-same :
    (k : Pubkey) (c c' : EscrowClaim)
    → c'.task ≡ c.task
    → is_active c ≡ true
    → is_active c' ≡ true
    → live k (claim_account c) ≡ live k (claim_account c')
unfolding live
live-same k c c' t a a' = ground arith

claim_case :
    (c d : EscrowClaim) → claim_account d ≡ claim_account c → ClaimIsSound c → ClaimIsSound d
claim_case c d h s = ground arith

pub ClaimMoved-IsSound : {env : Env} {w w' : World} → IsSound w → ClaimMoved env w w' → IsSound w'
ClaimMoved-IsSound {w} s m =
    let (b, a) = Move-active m.move in
    let act : is_active m.claim ≡ true = is_active_of m.claim m.before m.read ∙ ap not b in
    let act' : is_active m.claim' ≡ true = is_active_of m.claim' m.after m.becomes ∙ ap not a in
    let c = s.claims m.claim_key m.claim m.claim_at in
    let below = c.active_below act in
    let below' : m.claim'.rejections < max_rejections = omega (arith, below, m.rejections_kept) in
    let cs : ClaimIsSound m.claim' = record {
      decodes = (m.after, m.becomes);
      rejections_le = omega (arith, below');
      active_below = λ _. below';
    } in
    rw m.written (
      once-IsSound w m.claim_key (claim_account m.claim') w.ledger s
        (λ k. rw m.claim_at (live-same k m.claim m.claim' m.same_task act act')) (rw m.claim_at)
        (λ t h. cc) (λ d h. claim_case m.claim' d h cs) (λ d h. cc))

pub FeesTaken-IsSound :
    {p : Platform} {env : Env} {w w' : World} → IsSound w → FeesTaken p env w w' → IsSound w'
FeesTaken-IsSound s m = rw m.written (record {
  distinct = s.distinct;
  counted = s.counted;
  tasks = s.tasks;
  claims = s.claims;
  configs = s.configs;
})

closed-TaskIsSound :
    (t : EscrowTask)
    → TaskIsSound t
    → active_slots t ≡ 0
    → TaskIsSound (set_task_status closed_task t)
closed-TaskIsSound t s idle = record {
  settled_le = s.settled_le;
  enrolled_le = s.enrolled_le;
  max_le = s.max_le;
  closed_settled = λ c. omega (arith, s.settled_le);
}

pub Drained_closed-IsSound :
    {p : Platform} {env : Env} {w : World}
    → IsSound w
    → (d : Drained p env w)
    → IsSound (
        store d.task_key
          (task_account (set_task_status closed_task d.task))
          (record w { ledger = d.ledger }))
unfolding live
Drained_closed-IsSound {w} s d =
    once-IsSound w d.task_key (task_account (set_task_status closed_task d.task)) d.ledger s
      (λ k. rw d.task_at) (rw d.task_at)
      (λ t h.
        task_case (set_task_status closed_task d.task) t h
          (closed-TaskIsSound d.task (s.tasks d.task_key d.task d.task_at) d.settled))
      (λ c h. cc) (λ c h. cc)
  where
    task_case : (t u : EscrowTask) → task_account u ≡ task_account t → TaskIsSound t → TaskIsSound u
    task_case t u h ts = ground arith

-- A task that goes off the chain has no claims.
pub Drained_withdrawn-IsSound :
    {p : Platform} {env : Env} {w : World}
    → IsSound w
    → (d : Drained p env w)
    → IsSound (record w { accounts = erase d.task_key w.accounts; ledger = d.ledger })
unfolding live
Drained_withdrawn-IsSound {w} s d = record {
  distinct = erase-Distinct d.task_key w.accounts s.distinct;
  counted = λ k. ground (
    arith,
    s.counted k,
    total-erase (live k) d.task_key w.accounts s.distinct,
    lookup-erase d.task_key k w.accounts,
    d.task_at,
    d.settled,
  );
  tasks = λ k t h. ground (arith, s.tasks k t, lookup-erase d.task_key k w.accounts);
  claims = λ k c h. ground (arith, s.claims k c, lookup-erase d.task_key k w.accounts);
  configs = λ k c h. ground (arith, s.configs k c, lookup-erase d.task_key k w.accounts);
}
