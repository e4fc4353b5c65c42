-- ===== src/Locks.antt =====
-- What an active claim means for its task (task.rs, `close_task`, `cancel_before_enroll` and
-- `auto_cancel_task`), and the runs in which one key signs nothing.
use clustly_solana_escrow.Base.{
  ◌+◌, ℕ, ◌*◌, ◌≤◌, ◌≡◌, ◌≢◌, ◌⊎◌, inl, inr, refl, sym, ap, ◌∙◌, true, Option, none, some, arith,
}
use clustly_solana_escrow.Base.Dict.{lookup, weight-le-total}
use clustly_solana_escrow.Error.{ok, ok-injective}
use clustly_solana_escrow.State.{
  Pubkey, EscrowTask, EscrowClaim, TaskStatus, task_status, claim_status, open_task, closed_task,
  ClaimStatus, enrolled, submitted, approved, rejected, cancelled, disputed, resolved_deliverer,
  resolved_poster, is_terminal,
}
use clustly_solana_escrow.Platform.{Platform, balance_of}
use clustly_solana_escrow.Platform.Laws.{Laws}
use clustly_solana_escrow.World.{World, Env, Account, config_account, task_account, claim_account}
use clustly_solana_escrow.Task.Cancel.{
  CancelBeforeEnroll, cancel_before_enroll, AutoCancelTask, auto_cancel_task,
}
use clustly_solana_escrow.Task.Close.{CloseTask, active_slots, close_task}
use clustly_solana_escrow.Contract.Reasons.{TaskAt, ClaimAt}
use clustly_solana_escrow.Kept.Tasks.{
  close_task-TaskClosed, cancel_before_enroll-TaskWithdrawn, auto_cancel_task-TaskExpired,
}
use clustly_solana_escrow.System.{Step, SameMint}
use clustly_solana_escrow.Slots.Defs.{
  live, is_active, counted_slots, TaskIsSound, IsSound, is_active_of,
}
use clustly_solana_escrow.Custody.{Step-Custody}
use clustly_solana_escrow.Custody.Defs.{Custody, unsettled}
use clustly_solana_escrow.Slots.{Step-IsSound}
use clustly_solana_escrow.Lifecycle.{Step-Evolved, SignedIn}
use clustly_solana_escrow.Lifecycle.Edges.{Evolved, unchanged, advanced, is_claimers_turn}

status_cases : (s : TaskStatus) → (s ≡ open_task) ⊎ (s ≡ closed_task)
status_cases open_task = inl refl
status_cases closed_task = inr refl

-- On a sound chain, an active claim stands against a task that is on the chain, is open, and
-- counts at least one active slot.
pub active_claim_task :
    {w : World} (k : Pubkey) (c : EscrowClaim)
    → IsSound w
    → ClaimAt w k c
    → is_active c ≡ true
    → (t : EscrowTask) × TaskAt w c.task t × (task_status t ≡ open_task) × (1 ≤ active_slots t)
active_claim_task {w} k c s h act = find (lookup c.task w.accounts) refl
  where
    one : 1 ≤ counted_slots (lookup c.task w.accounts)
    one =
        unfold live in ground (arith, s.counted c.task, weight-le-total (live c.task) k w.accounts)

    still_open :
        (t : EscrowTask) → TaskAt w c.task t → 1 ≤ active_slots t → task_status t ≡ open_task
    still_open t at n = elim (status_cases (task_status t)) [
      | inl op ↦ op
      | inr cl ↦ absurd (omega (arith, (s.tasks c.task t at).closed_settled cl))
    ]

    find :
        (o : Option Account)
        → lookup c.task w.accounts ≡ o
        → (t : EscrowTask) × TaskAt w c.task t × (task_status t ≡ open_task) × (1 ≤ active_slots t)
    find (some (task_account t)) e =
        let n : 1 ≤ active_slots t = rw e at one in (t, e, still_open t e n, n)
    find (some (config_account x)) e = let z : 1 ≤ 0 = rw e at one in absurd (omega arith)
    find (some (claim_account x)) e = let z : 1 ≤ 0 = rw e at one in absurd (omega arith)
    find none e = let z : 1 ≤ 0 = rw e at one in absurd (omega arith)

same_task :
    (w : World) {j k : Pubkey} {t u : EscrowTask} → j ≡ k → TaskAt w j t → TaskAt w k u → t ≡ u
same_task w e h g = ground arith

busy_enrolled : (t : EscrowTask) → 1 ≤ active_slots t → t.slots_enrolled ≢ 0
busy_enrolled t n e = omega arith

busy_unsettled :
    (t : EscrowTask)
    → 1 ≤ active_slots t
    → t.slots_enrolled ≤ t.slots_approved + t.slots_refunded
    → ⊥
busy_unsettled t n h = omega arith

-- The three ways to end a task, `close_task`, `cancel_before_enroll` and `auto_cancel_task`, are all
-- refused while the task counts an active slot, whoever calls and whatever the time.
pub active_task_stays :
    (p : Platform) (env : Env) (w w' : World) (t : EscrowTask) (a : CloseTask)
    (b : CancelBeforeEnroll) (d : AutoCancelTask)
    → TaskAt w a.task t
    → b.task ≡ a.task
    → d.task ≡ a.task
    → 1 ≤ active_slots t
    → (close_task p env w a ≢ ok w')
      × (cancel_before_enroll p env w b ≢ ok w')
      × (auto_cancel_task p env w d ≢ ok w')
active_task_stays p env w w' t a b d at be de n = (
  λ h.
      let m = close_task-TaskClosed p env w w' a h in
      let same = same_task w refl m.returned.task_is.0 at in
      busy_unsettled m.task (rw same n) m.settled,
  λ h.
      let m = cancel_before_enroll-TaskWithdrawn p env w w' b h in
      let same = same_task w be m.returned.task_is.0 at in
      busy_enrolled m.task (rw same n) m.no_enrolments,
  λ h.
      let m = auto_cancel_task-TaskExpired p env w w' d h in
      let same = same_task w de m.returned.task_is.0 at in
      busy_enrolled m.task (rw same n) m.no_enrolments,
)

-- A run in which one key signs nothing, and the mint stays.
pub data Silent (p : Platform) (who : Pubkey) (s : World) : World → Type 0 where
  start : Silent p who s s
  later :
      {w w' : World}
      → Silent p who s w
      → (st : Step p w w') → ¬ SignedIn st who
      → SameMint w w'
      → Silent p who s w'

record Locked (p : Platform) (mint : Pubkey) (k : Pubkey) (c : EscrowClaim) (w : World)
    : Type 0 where
  sound : IsSound w
  custody : Custody p mint w
  there : ClaimAt w k c

turn_active :
    (c : EscrowClaim) (s : ClaimStatus)
    → claim_status c ≡ ok s
    → is_claimers_turn s ≡ true
    → is_active c ≡ true
unfolding is_claimers_turn is_terminal
turn_active c enrolled h t = is_active_of c enrolled h
turn_active c rejected h t = is_active_of c rejected h
turn_active c submitted h t = cc
turn_active c approved h t = cc
turn_active c cancelled h t = cc
turn_active c disputed h t = cc
turn_active c resolved_deliverer h t = cc
turn_active c resolved_poster h t = cc

stays_put :
    {Signed : Pubkey → Type 0} (w' : World) (k : Pubkey) (c : EscrowClaim) (s : ClaimStatus)
    → claim_status c ≡ ok s
    → is_claimers_turn s ≡ true
    → ¬ Signed c.claimer
    → Evolved Signed w' k c
    → ClaimAt w' k c
stays_put w' k c s read turn silent (unchanged g) = g
stays_put w' k c s read turn silent (advanced c' g read' becomes edge t r by) =
    absurd (silent (by (ap is_claimers_turn (ok-injective (sym read' ∙ read)) ∙ turn)))

Silent-Locked :
    {p : Platform} (laws : Laws p) (mint k : Pubkey) (c : EscrowClaim) (s : ClaimStatus)
    {w w' : World}
    → claim_status c ≡ ok s
    → is_claimers_turn s ≡ true
    → Locked p mint k c w
    → Silent p c.claimer w w'
    → Locked p mint k c w'
Silent-Locked laws mint k c s read turn l start = l
Silent-Locked laws mint k c s read turn l (later {w' = w''} r st silent same) =
    let m = Silent-Locked laws mint k c s read turn l r in
    record {
      sound = Step-IsSound st m.sound;
      custody = Step-Custody laws mint st same m.custody;
      there = stays_put w'' k c s read turn silent (Step-Evolved k c m.there st);
    }

due_le :
    (t : EscrowTask) (x : ℕ)
    → TaskIsSound t
    → 1 ≤ active_slots t
    → t.bounty * unsettled t ≤ x
    → t.bounty ≤ x
due_le t x s n h = let one : 1 ≤ unsettled t = omega (arith, s.enrolled_le) in grind (arith, one)

-- From a sound and covered state, through every run in which the claimer of an enrolled or rejected
-- claim signs nothing and the mint stays, whatever everybody else does and however much time passes,
-- his claim stays as it is, its task stays open with an active slot, and the task's vault keeps at
-- least the bounty of a slot.
pub Silent-keeps_claim :
    {p : Platform} (laws : Laws p) (mint k : Pubkey) (c : EscrowClaim) (s : ClaimStatus)
    {w w' : World}
    → IsSound w
    → Custody p mint w
    → ClaimAt w k c
    → claim_status c ≡ ok s
    → is_claimers_turn s ≡ true
    → Silent p c.claimer w w'
    → ClaimAt w' k c
      × ((t : EscrowTask) × TaskAt w' c.task t
          × (task_status t ≡ open_task)
          × (1 ≤ active_slots t)
          × (t.bounty ≤ balance_of (w'.ledger (p.associated_token c.task mint))))
Silent-keeps_claim laws mint k c s sound custody there read turn r =
    let l =
      Silent-Locked laws mint k c s read turn
        (record { sound = sound; custody = custody; there = there }) r in
    let (t, at, op, n) = active_claim_task k c l.sound l.there (turn_active c s read turn) in
    (
      l.there,
      (t, at, op, n, due_le t _ (l.sound.tasks c.task t at) n (l.custody.covered c.task t at op).1),
    )
